-- ===== src/Db/Tests.antt =====
-- The database of db/db.go on a few datagrams.
use protohackers_go.Prelude.{
  ◌≡◌, refl, some, List, [], ◌∷◌, ◌++◌, nat_eq, bytes_eq, Bytes, bytes_beq, codes, index_of,
  contains,
}
use protohackers_go.Db.{empty, handle, run, payload}
use protohackers_go.Db.Laws.{handle-read}

abbrev other_datagrams : List Bytes
other_datagrams = codes "foo=1" ∷ codes "bar" ∷ codes "version=2" ∷ []

handle-read_example :
    (handle
      (run (handle empty (codes "bar" ++ 61 ∷ codes "a=b")).0 other_datagrams)
      (codes "bar")).1
    ≡ some (payload (codes "bar") (codes "a=b"))
unfolding index_of bytes_beq contains
handle-read_example =
    handle-read empty (codes "bar") (codes "a=b") other_datagrams refl refl refl
      (refl, (refl, (refl, tt)))

version_is_kept :
    (handle (handle empty (codes "version=2")).0 (codes "version")).1 ≡ some (codes "version=alpha")
unfolding handle index_of bytes_beq payload
version_is_kept = refl

all_deleted : (run empty (codes "bar=1" ∷ codes "delete" ∷ [])) (codes "bar") ≡ []
unfolding run handle index_of bytes_beq empty
all_deleted = refl
