-- ===== src/Jobcentre/Types.antt =====
-- The requests, the answers and the state of jobcentre/jobcentre.go.
use protohackers_go.Prelude.{
  ℕ, Bool, false, Option, List, [], ◌∷◌, nat_eq, bytes_eq, Bytes, contains,
}
use protohackers_go.Prelude.Int.{ℤ, eq_int, int64}

pub data StatusType : Type 0 where
  status_ok status_error status_no_job : StatusType

abbrev pub status_message : StatusType → Bytes
status_message status_ok = b'o' ∷ b'k' ∷ []
status_message status_error = b'e' ∷ b'r' ∷ b'r' ∷ b'o' ∷ b'r' ∷ []
status_message status_no_job = b'n' ∷ b'o' ∷ b'-' ∷ b'j' ∷ b'o' ∷ b'b' ∷ []

-- `D` is the type of the job data, a decoded JSON object that is only passed on. A job is a pointer
-- in the source; the fields here do not change, and `owner` stands in the state, under the job's Id,
-- which names one job only as long as the counter of Ids has not gone round. An Id is the 64 bits of
-- an `int`.
pub record Job (D : Type 0) : Type 0 where
  pub id : ℕ
  pub payload : D
  pub priority : ℕ
  pub queue : Bytes

pub record Waiter : Type 0 where
  pub client : ℕ
  pub queues : List Bytes

pub data Response (D : Type 0) : Type 0 where
  get_response : Bytes → ℕ → D → ℕ → Bytes → Response D
  put_response : Bytes → ℕ → Response D
  error_response : Bytes → Bytes → Response D

pub data Request (D : Type 0) : Type 0 where
  connected : Request D
  disconnected : Request D
  put : Bytes → D → ℕ → Request D
  get : List Bytes → Option Bool → Request D
  abort : ℤ → Request D
  delete : ℤ → Request D

pub record State (D : Type 0) : Type 0 where
  pub next_id : ℕ
  pub clients : ℕ → Bool
  pub waiters : List Waiter
  pub queues : Bytes → List (Job D)
  pub jobs : List (Job D)
  pub owner : ℕ → ℕ

-- What has been written, and to which client.
abbrev pub Sent : Type 0 → Type 0
Sent D = List (ℕ × Response D)

abbrev pub waits_for : Bytes → Waiter → Bool
waits_for q w = contains w.queues q

module _ {D : Type 0} where
  unfoldable pub initial : State D
  initial = record {
    next_id = 1;
    clients = λ c. false;
    waiters = [];
    queues = λ q. [];
    jobs = [];
    owner = λ i. 0;
  }

  -- `WriteStatus`, and the answer that carries a job.
  abbrev pub status : StatusType → Bytes → Response D
  status t message = error_response (status_message t) message

  abbrev pub job_response : Job D → Response D
  job_response j = get_response (status_message status_ok) j.id j.payload j.priority j.queue

  abbrev pub has_id : ℤ → Job D → Bool
  has_id i j = eq_int (int64 j.id) i
