-- ===== src/Proto/StatusCode.antt =====
-- enum StatusCode. Its numbers travel as integers, so a code that is not listed can arrive too.
use rx.Base.{ℕ}

abbrev pub okay : ℕ
okay = 0

abbrev pub unknown : ℕ
unknown = 1

abbrev pub invalid : ℕ
invalid = 2

abbrev pub not_found : ℕ
not_found = 3

abbrev pub unauthorized : ℕ
unauthorized = 4

abbrev pub subscription_required : ℕ
subscription_required = 5

abbrev pub eagain : ℕ
eagain = 11

abbrev pub eaddrinuse : ℕ
eaddrinuse = 112

abbrev pub moved : ℕ
moved = 301
