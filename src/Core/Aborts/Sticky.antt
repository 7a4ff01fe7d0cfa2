-- ===== src/Core/Aborts/Sticky.antt =====
-- How long core/aborts.py remembers an abort.
use vishwakarma.Prelude.{String, ◌≡◌, true, Option, List, [], ◌∷◌, arith, eq_iff}
use vishwakarma.Prelude.Dict.{Dict}
use vishwakarma.Core.Correlation.{is_in}
use vishwakarma.Storage.Investigations.{Job}
use vishwakarma.Core.Aborts.{Marked, request_abort, is_aborted}

-- a look or a request, for any investigation; a look reads the table as it is then
pub data Op (J : Type 0) : Type 0 where
  look : String → Option (Dict (Job J)) → Op J
  request : String → Op J

module _ {J : Type 0} where
  abbrev pub apply : Op J → Marked → Marked
  apply (look k table) marked = (is_aborted k table marked).1
  apply (request k) marked = request_abort k marked

  abbrev pub apply_all : List (Op J) → Marked → Marked
  apply_all [] marked = marked
  apply_all (op ∷ ops) marked = apply_all ops (apply op marked)

  apply-marked :
      (k : String) (op : Op J) (marked : Marked)
      → is_in marked k ≡ true
      → is_in (apply op marked) k ≡ true
  unfolding is_aborted request_abort
  apply-marked k (look j table) marked h = ground arith
  apply-marked k (request j) marked h = ground arith

  apply_all-marked :
      (k : String) (ops : List (Op J)) (marked : Marked)
      → is_in marked k ≡ true
      → is_in (apply_all ops marked) k ≡ true
  apply_all-marked k [] marked h = h
  apply_all-marked k (op ∷ ops) marked h =
      apply_all-marked k ops (apply op marked) (apply-marked k op marked h)

  look-marked :
      (k : String) (table : Option (Dict (Job J))) (marked : Marked)
      → (is_aborted k table marked).0 ≡ true
      → is_in (is_aborted k table marked).1 k ≡ true
  unfolding is_aborted
  look-marked k table marked h = ground (arith, eq_iff k k)

  -- Once a look has found an investigation aborted, every later look finds it so, whatever looks and
  -- requests come between, and whatever the table says by then or that it cannot be read: an abort is
  -- forgotten only by `clear_abort`.
  pub is_aborted-stays :
      (k : String) (table later : Option (Dict (Job J))) (ops : List (Op J)) (marked : Marked)
      → (is_aborted k table marked).0 ≡ true
      → (is_aborted k later (apply_all ops (is_aborted k table marked).1)).0 ≡ true
  unfolding is_aborted
  is_aborted-stays k table later ops marked h =
      let kept =
        apply_all-marked k ops (is_aborted k table marked).1 (look-marked k table marked h) in
      ground (arith, kept)
