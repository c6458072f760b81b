-- ===== src/Means/Tests.antt =====
-- means/server.go on the example of the protocol.
use protohackers_go.Prelude.{
  ℕ, ◌-◌, ◌^◌, ◌≡◌, refl, some, List, [], ◌∷◌, arith, nat_eq, bytes_eq, Bytes,
}
use protohackers_go.Means.{StepTwoData, totals, mean, command, rounds, handler}
use protohackers_go.Reader.Conn.{Stream, be32}
use protohackers_go.Prelude.Int.{negsuc, int32}
use protohackers_go.Means.Mean.{selected, mean_of, mean_lem}
use protohackers_go.Means.Session.{
  PriceRequest, insert_price, query_mean, answers, handler-answers, handler_ends,
}

abbrev at : ℕ → ℕ → StepTwoData
at timestamp price = record { timestamp = timestamp; price = price }

-- The last price is -5.
abbrev prices : List StepTwoData
prices = at 12345 101 ∷ at 12346 102 ∷ at 12347 100 ∷ at 40960 5 ∷ at 40961 (2 ^ 32 - 5) ∷ []

mean_lem_example :
    int32 (mean 12288 16384 prices) ≡ mean_of (selected (int32 12288) (int32 16384) prices)
unfolding int32
mean_lem_example =
    mean_lem 12288 16384 prices (omega arith) (omega arith)
      (
        (omega arith, omega arith),
        (
          (omega arith, omega arith),
          (
            (omega arith, omega arith),
            ((omega arith, omega arith), ((omega arith, omega arith), tt)),
          ),
        ),
      )
      (omega arith)

negative : int32 (mean 40961 40961 prices) ≡ negsuc 4
unfolding mean totals int32
negative = refl

abbrev requests : List PriceRequest
requests = insert_price (at 12345 101) ∷ query_mean 12288 16384 ∷ []

-- In three segments, one of which ends inside a number.
abbrev connection : Stream
connection =
    (73 ∷ 0 ∷ 0 ∷ 48 ∷ 57 ∷ 0 ∷ 0 ∷ 0 ∷ 101 ∷ [])
    ∷ (81 ∷ 0 ∷ 0 ∷ 48 ∷ [])
    ∷ (0 ∷ 0 ∷ 0 ∷ 64 ∷ 0 ∷ [])
    ∷ []

handler-answers_example : handler connection ≡ some (answers [] requests)
unfolding be32
handler-answers_example =
    handler-answers requests connection
      ((omega arith, omega arith), ((omega arith, omega arith), tt))
      (((λ e. cc), ((λ e. cc), ((λ e. cc), tt))), refl)

-- A query that breaks off is answered as if the missing numbers were 0.
cut_off : handler ((81 ∷ []) ∷ []) ≡ some ((0 ∷ 0 ∷ 0 ∷ 0 ∷ []) ∷ [])
unfolding handler rounds command
cut_off = refl

session_over : (out : List Bytes) × (handler connection ≡ some out)
session_over = handler_ends connection
