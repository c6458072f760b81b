-- ===== src/Reader/Tests.antt =====
-- The readers of reader/reader.go on a few connections.
use protohackers_go.Prelude.{◌≡◌, refl, [], ◌∷◌, some, arith, nat_eq}
use mathlib.Core.List.{reverse}
use protohackers_go.Reader.Conn.{Stream, ok, err, eof, unexpected_eof, read, read_full}
use protohackers_go.Reader.{
  read_n, read_byte, read_u16, read_u32, read_l16, read_l32, skip_n, read_string, reverse_bytes,
}
use protohackers_go.Reader.Laws.{AnySegments}
use protohackers_go.Reader.Reverse.{reverse_bytes-reverse}
use protohackers_go.Reader.Strings.{read_string-text, read_string-cut}
use protohackers_go.Reader.Counting.{
  CountingReader, read_counted, read_full_counted, read_n_counted, read_u16_counted,
  read_u32_counted, read_l16_counted, read_l32_counted, read_string_counted,
}
use protohackers_go.Reader.Counting.Laws.{Same}
use protohackers_go.Reader.Counting.Reads.{SameString, counted_reads-Same}

-- Three bytes in two segments.
abbrev two_segments : Stream
two_segments = (1 ∷ 2 ∷ []) ∷ (3 ∷ []) ∷ []

waits : read_u16 ((1 ∷ []) ∷ (2 ∷ 3 ∷ []) ∷ []) ≡ (ok 258, (3 ∷ []) ∷ [])
unfolding read_u16
waits = refl

does_not_wait : read_n 3 two_segments ≡ (err unexpected_eof, (3 ∷ []) ∷ [])
unfolding read_n
does_not_wait = refl

closed : read_byte [] ≡ (err eof, [])
unfolding read_byte
closed = refl

skips : skip_n 1 two_segments ≡ (1, ok tt, (2 ∷ []) ∷ (3 ∷ []) ∷ [])
unfolding skip_n
skips = refl

no_string : read_string [] ≡ some (ok [], [])
unfolding read_string
no_string = refl

turned : reverse_bytes (1 ∷ 2 ∷ 3 ∷ 4 ∷ []) ≡ 4 ∷ 3 ∷ 2 ∷ 1 ∷ []
unfolding reverse_bytes
turned = refl

three_reversed : reverse_bytes (1 ∷ 2 ∷ 3 ∷ []) ≡ reverse (1 ∷ 2 ∷ 3 ∷ [])
three_reversed = reverse_bytes-reverse (1 ∷ 2 ∷ 3 ∷ [])

-- The string "hi" and its zero, and a byte behind them.
abbrev hi : Stream
hi = (104 ∷ []) ∷ (105 ∷ 0 ∷ 7 ∷ []) ∷ []

read_string-text_example :
    (t : Stream) × (read_string hi ≡ some (ok (104 ∷ 105 ∷ []), t)) × AnySegments (7 ∷ []) t
read_string-text_example =
    read_string-text (104 ∷ 105 ∷ []) hi (7 ∷ []) (refl, (refl, tt))
      (((λ e. cc), ((λ e. cc), tt)), refl)

no_zero_byte : read_string ((104 ∷ []) ∷ []) ≡ some (err eof, [])
no_zero_byte = read_string-cut (104 ∷ []) ((104 ∷ []) ∷ []) (refl, tt) (((λ e. cc), tt), refl)

abbrev counted : CountingReader
counted = record { reader = two_segments; bytes_read = 5 }

counted_reads-Same_example :
    Same two_segments 5 (read_counted 2 counted) (read 2 two_segments)
    × Same two_segments 5 (read_full_counted 2 counted) (read_full 2 two_segments)
    × Same two_segments 5 (read_n_counted 2 counted) (read_n 2 two_segments)
    × Same two_segments 5 (read_u16_counted counted) (read_u16 two_segments)
    × Same two_segments 5 (read_u32_counted counted) (read_u32 two_segments)
    × Same two_segments 5 (read_l16_counted counted) (read_l16 two_segments)
    × Same two_segments 5 (read_l32_counted counted) (read_l32 two_segments)
    × SameString two_segments 5 (read_string_counted counted) (read_string two_segments)
counted_reads-Same_example = counted_reads-Same 2 5 two_segments (omega arith)

counts_three : (read_full_counted 3 counted).1.bytes_read ≡ 8
unfolding read_full_counted
counts_three = refl
