-- ===== src/Log.antt =====
-- src/utilities/util.cpp: `write_log`, with output to a file. The calendar time that `localtime` makes
-- of the clock is an argument.
use reliable_service_framewo.Prelude.{ℕ, ◌+◌, ◌/◌, List, ◌++◌}
use reliable_service_framewo.Prelude.Int.{pos}
use reliable_service_framewo.Prelude.Text.{codes}
use reliable_service_framewo.Params.{to_string}

-- `struct tm`, for years from 1900 on.
pub record Tm : Type 0 where
  pub tm_year : ℕ
  pub tm_mon : ℕ
  pub tm_mday : ℕ
  pub tm_hour : ℕ
  pub tm_min : ℕ
  pub tm_sec : ℕ

abbrev pub abs_year : ℕ
abs_year = 1900

abbrev decimal : ℕ → List ℕ
decimal n = to_string (pos n)

-- The file that is appended to.
unfoldable pub log_file : List ℕ → List ℕ
log_file who = codes "log/" ++ who ++ codes ".txt"

-- The row, with its end of line.
unfoldable pub log_row : Tm → ℕ → List ℕ → List ℕ → List ℕ
log_row now tv_nsec who what =
    decimal (now.tm_year + abs_year)
    ++ codes "-"
    ++ decimal (now.tm_mon + 1)
    ++ codes "-"
    ++ decimal now.tm_mday
    ++ codes "_"
    ++ decimal now.tm_hour
    ++ codes ":"
    ++ decimal now.tm_min
    ++ codes ":"
    ++ decimal now.tm_sec
    ++ codes "."
    ++ decimal (tv_nsec / 1_000_000)
    ++ codes " "
    ++ who
    ++ codes " "
    ++ what
    ++ codes "\n"

unfoldable pub write_log : Tm → ℕ → List ℕ → List ℕ → List ℕ × List ℕ
write_log now tv_nsec who what = (log_file who, log_row now tv_nsec who what)
