-- ===== src/Tests/Admitted.antt =====
-- src/admission.rs on small batches.
use whaletracker.Prelude.{
  ◌≤◌, ◌<◌, ◌≡◌, refl, List, [], ◌∷◌, ◌++◌, some, arith, Text, length, Distinct, contains, text_eq,
  insert,
}
use whaletracker.Sql.Lane.{online, logs}
use whaletracker.Admission.{
  Admission, Spec, Permit, granted, new_admission, reserve, total_bytes, check_ids, exceeds,
  permits_of, admit_all, retire_all,
}
use whaletracker.Admission.Held.{ids}
use whaletracker.Admission.Capacity.{Sound, reserve-Sound, bytes_asked}
use whaletracker.Admission.Reach.{
  Reach, start, next, reserves, Reach-Sound, retire_all-reserve, reserve_complete,
}
use whaletracker.Admission.Dedupe.{Dedupe, new_dedupe, remember, IsDedupe}
use whaletracker.Admission.Dedupe.Recent.{remember-IsDedupe, remember-recent, recent, new-IsDedupe}

abbrev empty : Admission
empty = new_admission 3 500

abbrev batch : List Spec
batch =
    record { id = 1 ∷ []; bytes = 200; lane = online }
    ∷ record { id = 2 ∷ []; bytes = 300; lane = logs }
    ∷ []

abbrev permits : List Permit
permits = permits_of batch

abbrev full : Admission
full = record empty { state = admit_all empty.state batch }

batch_granted : reserve empty batch ≡ granted full permits
unfolding reserve total_bytes check_ids exceeds new_admission contains insert text_eq
batch_granted = ground arith

reached : Reach empty full permits
unfolding permits_of
reached = next start (reserves batch permits batch_granted refl)

Reach-Sound_example : Sound full permits
Reach-Sound_example = Reach-Sound 3 500 (omega arith) (omega arith) reached

empty-Sound : Sound empty []
empty-Sound = Reach-Sound 3 500 (omega arith) (omega arith) start

full-Sound : Sound full permits
unfolding permits_of
full-Sound = reserve-Sound empty full [] permits batch empty-Sound batch_granted

abbrev permit_one : Permit
permit_one = record { id = 1 ∷ []; bytes = 200; lane = online }

abbrev permit_two : Permit
permit_two = record { id = 2 ∷ []; bytes = 300; lane = logs }

both-Sound : Sound full (permit_one ∷ permit_two ∷ [])
unfolding permits_of
both-Sound = full-Sound

retire_all-reserve_example :
    (b : Admission) × (retire_all full permits ≡ some b)
    × (b.state.usage ≡ empty.state.usage)
    × ((j : Text) → contains j b.state.active ≡ contains j empty.state.active)
retire_all-reserve_example =
    retire_all-reserve empty full [] permits batch empty-Sound batch_granted

batch-Distinct : Distinct (ids (permits_of batch ++ []))
unfolding permits_of contains text_eq
batch-Distinct = (refl, (refl, tt))

rows_fit : length batch ≤ empty.row_limit
unfolding new_admission
rows_fit = omega arith

bytes_fit : bytes_asked batch ≤ empty.byte_limit
unfolding new_admission
bytes_fit = omega arith

reserve_complete_example : reserve empty batch ≡ granted full permits
reserve_complete_example =
    reserve_complete empty [] batch empty-Sound rows_fit bytes_fit batch-Distinct

abbrev two_known : Dedupe
two_known = remember (remember (new_dedupe 2) (1 ∷ [])) (2 ∷ [])

two_known-IsDedupe : IsDedupe two_known
two_known-IsDedupe =
    remember-IsDedupe (remember (new_dedupe 2) (1 ∷ [])) (2 ∷ [])
      (remember-IsDedupe (new_dedupe 2) (1 ∷ []) (new-IsDedupe 2))

has_capacity : 0 < two_known.capacity
unfolding remember new_dedupe contains
has_capacity = ground arith

remember-recent_example :
    (remember two_known (3 ∷ [])).order ≡ recent two_known.capacity two_known.order (3 ∷ [])
remember-recent_example = remember-recent two_known (3 ∷ []) two_known-IsDedupe has_capacity
