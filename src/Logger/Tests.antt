-- ===== src/Logger/Tests.antt =====
-- The log at one message.
use secure_data_transmission.Base.{c_str, some, ◌≡◌, refl, [], ◌∷◌, codes, to_string}
use secure_data_transmission.Logger.{
  LogData, push, read_time, open_file, write_next, pop, log, Tm, error, file_name, log_line,
}
use secure_data_transmission.Logger.Written.{
  Run, Steps, start, later, first, logs, times, opens, writes, WrittenInOrder,
  reachable-WrittenInOrder,
}

abbrev noon : Tm
noon = record { year = 123; mon = 3; mday = 4; hour = 12; min = 0; sec = 9 }

noon_line :
    log_line noon (record { level = error; text = codes "bind" }) ≡ codes "12:0:9 =>[error] bind\n"
unfolding log_line to_string c_str
noon_line = refl

noon_file : file_name noon ≡ codes "2023-4-4-log.txt"
unfolding file_name to_string
noon_file = refl

-- One message is logged before the writing thread opens its file; another thread asks for the time
-- before the line is written.
abbrev bound : LogData
bound = record { level = error; text = codes "bind" }

abbrev second_later : Tm
second_later = record noon { sec = 10 }

abbrev one_opened : Run
one_opened = record {
  logger = record {
    queue = bound ∷ [];
    now = second_later;
    file = some (file_name noon);
    files = [];
  };
  logged = bound ∷ [];
  opened = some noon;
  rounds = [];
}

abbrev one_message : (r : Run) × Steps (first noon) r
unfolding log push pop write_next read_time open_file
one_message = (
  _,
  later
      (later (later (later start (logs (first noon) error (codes "bind"))) (opens _ refl))
        (times _ second_later))
      (writes one_opened noon bound [] _ refl refl refl),
)

reachable-WrittenInOrder_example : WrittenInOrder one_message.0
reachable-WrittenInOrder_example = reachable-WrittenInOrder noon one_message.0 one_message.1
