-- ===== src/Logger.antt =====
-- server/src/logger.cpp and include/lockqueue.h: the log's queue, and the thread that writes it out.
-- The client's copies have the same text.
pub mod Written
mod Tests
use secure_data_transmission.Base.{
  ℕ, suc, ◌+◌, ◌≡◌, Bool, true, false, Option, none, some, List, [], ◌∷◌, ◌++◌, ℤ, pos, Bytes,
  codes, to_string, c_str,
}

-- `LogLevel` and `LogData`.
pub data Level : Type 0 where
  info error : Level

pub record LogData : Type 0 where
  pub level : Level
  pub text : Bytes

-- What `localtime` leaves in its buffer.
pub record Tm : Type 0 where
  pub year : ℕ
  pub mon : ℕ
  pub mday : ℕ
  pub hour : ℕ
  pub min : ℕ
  pub sec : ℕ

-- `LockQueue::Push` and `LockQueue::Pop`: `none`, where the caller waits.
unfoldable pub push {ℓ} : {A : Type ℓ} → A → List A → List A
push a q = q ++ a ∷ []

unfoldable pub pop {ℓ} : {A : Type ℓ} → List A → Option (A × List A)
pop [] = none
pop (a ∷ q) = some (a, q)

abbrev number : ℕ → Bytes
number n = to_string (pos n)

unfoldable pub file_name : Tm → Bytes
file_name t =
    number (t.year + 1900)
    ++ codes "-"
    ++ number (t.mon + 1)
    ++ codes "-"
    ++ number t.mday
    ++ codes "-log.txt"

abbrev level_text : Level → Bytes
level_text info = codes "info"
level_text error = codes "error"

-- `fputs` ends at the first NUL.
unfoldable pub log_line : Tm → LogData → Bytes
log_line t d = c_str (
    number t.hour
    ++ codes ":"
    ++ number t.min
    ++ codes ":"
    ++ number t.sec
    ++ codes " =>["
    ++ level_text d.level
    ++ codes "] "
    ++ d.text
    ++ codes "\n")

-- The queue; the buffer of `localtime`, which all threads share; the file of this round of the
-- writing thread, once it is open; and what has been written: each line with its file.
pub record Logger : Type 0 where
  pub queue : List LogData
  pub now : Tm
  pub file : Option Bytes
  pub files : List (Bytes × Bytes)

-- `Logger::Log`.
unfoldable pub log : Level → Bytes → Logger → Logger
log level text g = record g { queue = push (record { level = level; text = text }) g.queue }

-- A call of `localtime`, by the writing thread at the beginning of a round or by another thread at any
-- time: `nowtm` only points to the buffer.
unfoldable pub read_time : Tm → Logger → Logger
read_time t g = record g { now = t }

-- A round of the writing thread, whose files open: the file has its name by what the buffer holds.
unfoldable pub open_file : Logger → Logger
open_file g = record g { file = some (file_name g.now) }

-- Once a message is there, it is written with what the buffer holds then.
unfoldable pub write_next : Logger → Option Logger
write_next g = elim g.file [
  | none ↦ none
  | some f ↦ elim (pop g.queue) [
    | none ↦ none
    | some (d, q) ↦
        some (record g { queue = q; file = none; files = g.files ++ (f, log_line g.now d) ∷ [] })
  ]
]
