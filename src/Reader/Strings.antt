-- ===== src/Reader/Strings.antt =====
-- ReadString of reader/reader.go: strings with a zero behind them, and what becomes of others.
use protohackers_go.Prelude.{
  ℕ, zero, suc, ◌+◌, ◌<◌, ◌≡◌, refl, sym, ap, ◌∙◌, false, Option, some, [], ◌∷◌, ◌++◌, arith, ◌==◌,
  nat_eq, bytes_eq, Bytes, length, All, append_nil, length-append,
}
use protohackers_go.Reader.Conn.{Stream, Result, ok, err, eof, read_full, read_more, bytes_in}
use protohackers_go.Reader.{go_on, start, string_from, read_string}
use protohackers_go.Reader.Laws.{AnySegments, read_full-Reads}
use protohackers_go.Reader.Shrinks.{bytes_in-concat}
use mathlib.Core.List.{append_assoc}

-- None of the bytes is the zero that ends a string.
abbrev pub IsText : Bytes → Type 0
IsText w = All (λ b. (b == 0) ≡ false) w

string_from-text :
    (w : Bytes) (n : ℕ) (bb : Bytes) (s : Stream) (ys : Bytes)
    → length w < n
    → IsText w
    → AnySegments (w ++ (0 ∷ ys)) s
    → (t : Stream) × (go_on (string_from n bb) (read_full 1 s) ≡ some (ok (bb ++ w), t))
      × AnySegments ys t
unfolding string_from
string_from-text w zero bb s ys h f a = absurd (omega arith)
string_from-text [] (suc n) bb s ys h f a =
    let (t, e, b) = (read_full-Reads 1 (0 ∷ []) refl).run s ys a in
    (t, rw e (ap (λ w. some (ok w, t)) (sym (append_nil bb))), b)
string_from-text (x ∷ w) (suc n) bb s ys h f a =
    let (t, e, b) = (read_full-Reads 1 (x ∷ []) refl).run s (w ++ (0 ∷ ys)) a in
    let (u, g, c) = string_from-text w n (bb ++ (x ∷ [])) t ys (omega arith) f.1 b in
    (u, rw (e, f.0) (g ∙ ap (λ w. some (ok w, u)) (append_assoc bb (x ∷ []) w)), c)

closed : (s : Stream) → AnySegments [] s → s ≡ []
closed [] a = refl
closed ([] ∷ cs) a = absurd (a.0.0 refl)
closed ((b ∷ bs) ∷ cs) a = cc a.1

read_closed : (s : Stream) → AnySegments [] s → read_full 1 s ≡ (err eof, [])
unfolding read_full read_more
read_closed s a = rw (closed s a) refl

string_from-cut :
    (w : Bytes) (n : ℕ) (bb : Bytes) (s : Stream)
    → length w < n
    → IsText w
    → AnySegments w s
    → go_on (string_from n bb) (read_full 1 s) ≡ some (err eof, [])
unfolding string_from
string_from-cut w zero bb s h f a = absurd (omega arith)
string_from-cut [] (suc n) bb s h f a = rw (read_closed s a) refl
string_from-cut (x ∷ w) (suc n) bb s h f a =
    let (t, e, b) = (read_full-Reads 1 (x ∷ []) refl).run s w a in
    rw (e, f.0) (string_from-cut w n (bb ++ (x ∷ [])) t (omega arith) f.1 b)

-- Where the first read gets a byte, the start of the loop is a round of it.
start-go_on :
    (loop : ℕ → Stream → Option (Result Bytes × Stream)) (x : Result Bytes × Stream) (b : Bytes)
    (t : Stream)
    → x ≡ (ok b, t)
    → start loop x ≡ go_on loop x
start-go_on loop x b t e = rw e refl

-- A string and the zero behind it, in any segments, are read as this string, and what follows is left.
pub read_string-text :
    (w : Bytes) (s : Stream) (ys : Bytes)
    → IsText w
    → AnySegments (w ++ (0 ∷ ys)) s
    → (t : Stream) × (read_string s ≡ some (ok w, t)) × AnySegments ys t
unfolding read_string
read_string-text w s ys f a =
    let size : length w < bytes_in s + 1 =
      omega (arith, bytes_in-concat s, ap length a.1, length-append w (0 ∷ ys)) in
    let (t, e, b) = string_from-text w (bytes_in s + 1) [] s ys size f a in (t, started w a ∙ e, b)
  where
    started :
        (v : Bytes)
        → AnySegments (v ++ (0 ∷ ys)) s
        → start (string_from (bytes_in s + 1) []) (read_full 1 s)
          ≡ go_on (string_from (bytes_in s + 1) []) (read_full 1 s)
    started [] c =
        let (t, e, b) = (read_full-Reads 1 (0 ∷ []) refl).run s ys c in
        start-go_on (string_from (bytes_in s + 1) []) (read_full 1 s) (0 ∷ []) t e
    started (x ∷ v) c =
        let (t, e, b) = (read_full-Reads 1 (x ∷ []) refl).run s (v ++ (0 ∷ ys)) c in
        start-go_on (string_from (bytes_in s + 1) []) (read_full 1 s) (x ∷ []) t e

-- What comes of a string without the zero.
abbrev pub cut : Bytes → Result Bytes
cut [] = ok []
cut (x ∷ w) = err eof

-- A connection that ends before the zero is an error only if a byte came: the end at the very
-- beginning is read as the empty string, without an error.
pub read_string-cut :
    (w : Bytes) (s : Stream) → IsText w → AnySegments w s → read_string s ≡ some (cut w, [])
unfolding read_string
read_string-cut [] s f a = rw (closed s a) (unfold read_full in unfold string_from in refl)
read_string-cut (x ∷ w) s f a =
    let size : length (x ∷ w) < bytes_in s + 1 = omega (arith, bytes_in-concat s, ap length a.1) in
    let (t, e, b) = (read_full-Reads 1 (x ∷ []) refl).run s w a in
    start-go_on (string_from (bytes_in s + 1) []) (read_full 1 s) (x ∷ []) t e
    ∙ string_from-cut (x ∷ w) (bytes_in s + 1) [] s size f a
