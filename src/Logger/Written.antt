-- ===== src/Logger/Written.antt =====
-- What is written, in every order of the threads' steps.
use secure_data_transmission.Base.{
  Option, ◌≡◌, ◌∙◌, refl, sym, ap, ap₂, none, some, List, [], ◌∷◌, ◌++◌, Bytes, arith, map,
  append_assoc, map-append,
}
use secure_data_transmission.Logger.{
  Level, LogData, Tm, Logger, push, pop, log, read_time, open_file, write_next, file_name, log_line,
}

-- What a round has come to: what the buffer held when its file was opened, what it held when the line
-- was made, and the message.
pub record Round : Type 0 where
  pub opened : Tm
  pub stamp : Tm
  pub message : LogData

-- The logger with what was given to it, what the buffer held when the open file was opened, and the
-- rounds that have ended.
pub record Run : Type 0 where
  pub logger : Logger
  pub logged : List LogData
  pub opened : Option Tm
  pub rounds : List Round

pub data Step : Run → Run → Type 0 where
  logs :
      (r : Run) (level : Level) (text : Bytes)
      → Step r (record r {
        logger = log level text r.logger;
        logged = r.logged ++ record { level = level; text = text } ∷ [];
      })
  times : (r : Run) (t : Tm) → Step r (record r { logger = read_time t r.logger })
  opens :
      (r : Run)
      → r.logger.file ≡ none
      → Step r (record r { logger = open_file r.logger; opened = some r.logger.now })
  writes :
      (r : Run) (t : Tm) (d : LogData) (q : List LogData) (g : Logger)
      → r.opened ≡ some t
      → pop r.logger.queue ≡ some (d, q)
      → write_next r.logger ≡ some g
      → Step r (record r {
        logger = g;
        opened = none;
        rounds = r.rounds ++ record { opened = t; stamp = r.logger.now; message = d } ∷ [];
      })

pub data Steps (a : Run) : Run → Type 0 where
  start : Steps a a
  later : {b c : Run} → Steps a b → Step b c → Steps a c

-- At first the buffer holds anything.
abbrev pub first : Tm → Run
first t = record {
  logger = record { queue = []; now = t; file = none; files = [] };
  logged = [];
  opened = none;
  rounds = [];
}

abbrev pub written_round : Round → Bytes × Bytes
written_round x = (file_name x.opened, log_line x.stamp x.message)

abbrev pub name_of : Option Tm → Option Bytes
name_of none = none
name_of (some t) = some (file_name t)

-- The messages that are written, followed by those in the queue, are those that were logged, in order;
-- the files hold a line for each round.
pub record WrittenInOrder (r : Run) : Type 0 where
  pub order : map (λ x. x.message) r.rounds ++ r.logger.queue ≡ r.logged
  pub lines : r.logger.files ≡ map written_round r.rounds
  pub name : r.logger.file ≡ name_of r.opened

pop-some : (queue q : List LogData) (d : LogData) → pop queue ≡ some (d, q) → queue ≡ d ∷ q
unfolding pop
pop-some [] q d h = cc
pop-some (x ∷ xs) q d h = ground (arith, h)

write_next-some :
    (g g' : Logger) (f : Bytes) (d : LogData) (q : List LogData)
    → g.file ≡ some f
    → pop g.queue ≡ some (d, q)
    → write_next g ≡ some g'
    → (g.queue ≡ d ∷ q)
      × (g'.queue ≡ q)
      × (g'.files ≡ g.files ++ (f, log_line g.now d) ∷ [])
      × (g'.file ≡ none)
unfolding write_next
write_next-some g g' f d q s p w = (
  pop-some g.queue q d p,
  ground (arith, s, p, w),
  ground (arith, s, p, w),
  ground (arith, s, p, w),
)

Step-WrittenInOrder : {a b : Run} → Step a b → WrittenInOrder a → WrittenInOrder b
unfolding log push read_time open_file
Step-WrittenInOrder (logs r level text) i =
    let d : LogData = record { level = level; text = text } in
    record {
      order =
          sym (append_assoc (map (λ x. x.message) r.rounds) r.logger.queue (d ∷ []))
          ∙ ap (λ l. l ++ d ∷ []) i.order;
      lines = i.lines;
      name = i.name;
    }
Step-WrittenInOrder (times r t) i = record { order = i.order; lines = i.lines; name = i.name }
Step-WrittenInOrder (opens r s) i = record { order = i.order; lines = i.lines; name = refl }
Step-WrittenInOrder (writes r t d q g s p w) i =
    let x : Round = record { opened = t; stamp = r.logger.now; message = d } in
    let (before, after, files, closed) =
      write_next-some r.logger g (file_name t) d q (i.name ∙ ap name_of s) p w in
    record {
      order =
          ap₂ (λ x y. x ++ y) (map-append (λ x. x.message) r.rounds (x ∷ [])) after
          ∙ append_assoc (map (λ x. x.message) r.rounds) (d ∷ []) q
          ∙ ap (λ l. map (λ x. x.message) r.rounds ++ l) (sym before)
          ∙ i.order;
      lines =
          files
          ∙ ap (λ l. l ++ (file_name t, log_line r.logger.now d) ∷ []) i.lines
          ∙ sym (map-append written_round r.rounds (x ∷ []));
      name = closed;
    }

-- In every order of the steps of the threads that log, of the thread that writes and of the calls of
-- `localtime` by any thread, the messages are written in the order in which they were logged, each
-- once: those written, followed by those in the queue, are those logged. Each has its line, with the
-- time that the buffer of `localtime` held when the line was made, in the file whose name is made of
-- the time that the buffer held when the file was opened.
pub reachable-WrittenInOrder : (t : Tm) (r : Run) → Steps (first t) r → WrittenInOrder r
reachable-WrittenInOrder t r start = record { order = refl; lines = refl; name = refl }
reachable-WrittenInOrder t r (later w s) = Step-WrittenInOrder s (reachable-WrittenInOrder t _ w)

-- A line may have a time that is neither that of its message nor of its file: from any state that is
-- reached with an empty queue and no file open, the writing thread may open the file of `t` and wait;
-- a message that is logged after that, however late, is written to the file of `t`, with the time `t'`
-- of the last call of `localtime` by any thread.
pub stale_round :
    (t₀ : Tm) (r : Run) (t t' : Tm) (level : Level) (text : Bytes)
    → Steps (first t₀) r
    → r.logger.file ≡ none
    → r.logger.queue ≡ []
    → (u : Run) × Steps (first t₀) u
      × (u.logged ≡ r.logged ++ record { level = level; text = text } ∷ [])
      × (u.logger.files
          ≡ r.logger.files
            ++ (file_name t, log_line t' (record { level = level; text = text })) ∷ [])
unfolding write_next log push pop read_time open_file
stale_round t₀ r t t' level text w s q =
    let d : LogData = record { level = level; text = text } in
    let c = later (later (later w (times r t)) (opens _ s)) (times _ t') in
    (
      _,
      later (later c (logs _ level text)) (
          writes _ t d []
            (record {
              queue = [];
              now = t';
              file = none;
              files = r.logger.files ++ (file_name t, log_line t' d) ∷ [];
            })
            refl (ground (arith, q)) (ground (arith, q))),
      refl,
      refl,
    )
