-- ===== src/Log/Tests.antt =====
-- The theorems on the log at a message of two lines.
use libtx.Common.{ℕ, ◌≡◌, refl, true, none, List, [], ◌∷◌}
use libtx.Log.{
  LogCookie, log_header, log_byte, log_bytes, log_write, log_logable, logable_bits, all_bits,
  tag_bits, test_bit, has_bit, log_tag_putlog,
}
use libtx.Log.Lines.{putlog-written}

abbrev cookie : LogCookie
cookie = record { log_nol = true; log_fmt = b'>' ∷ []; written = [] }

abbrev two_lines : List ℕ
two_lines = b'a' ∷ b'\n' ∷ b'b' ∷ []

-- "a\nb" becomes ">a\n>b".
two_lines_written : (log_write two_lines cookie).1.written ≡ b'>' ∷ b'a' ∷ b'\n' ∷ b'>' ∷ b'b' ∷ []
unfolding log_write log_bytes log_byte log_header
two_lines_written = refl

-- The message comes in two pieces, and its last line is ended by "\r\n".
putlog-written_example :
    (log_tag_putlog b'E'
      (b'>' ∷ [])
      ((b'a' ∷ []) ∷ (b'\n' ∷ b'b' ∷ []) ∷ [])
      none
      []
      cookie).1.written
    ≡ b'>' ∷ b'a' ∷ b'\n' ∷ b'>' ∷ b'b' ∷ b'\r' ∷ b'\n' ∷ []
unfolding log_logable logable_bits all_bits tag_bits test_bit has_bit
putlog-written_example =
    putlog-written b'E' (b'>' ∷ []) ((b'a' ∷ []) ∷ (b'\n' ∷ b'b' ∷ []) ∷ []) none [] cookie
