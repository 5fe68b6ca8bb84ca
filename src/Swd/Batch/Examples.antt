-- ===== src/Swd/Batch/Examples.antt =====
-- The properties of a batch at a concrete one: reads of the debug port and of an access port, and a
-- write of the access port, over the simulated wire.
use ostiole.Base.{◌≡◌, refl, true, false, none, some, [], ◌∷◌}
use ostiole.Go.Errors.{batch_committed}
use ostiole.Go.State.{err}
use ostiole.Swd.Examples.{env, at_ready}
use ostiole.Swd.Batch
use ostiole.Swd.Batch.{Committing}
use ostiole.Swd.Batch.Queue.{operation}
use ostiole.Swd.Batch.Settled.{IsSettled}
use ostiole.Swd.Batch.Contract.{commit-IsSettled, commit_again}

abbrev three : Committing env
three = record {
  batch = record {
    ops =
        operation false true 0x00 0 ∷ operation true true 0x0c 0 ∷ operation true false 0x04 7 ∷ [];
    committed = false;
  };
  swd = at_ready;
}

commit-IsSettled_example : IsSettled 3 3 (Batch.commit env tt none three).1.batch.ops
commit-IsSettled_example = commit-IsSettled env tt none three refl

commit_again_example :
    let b = (Batch.commit env tt none three).1 in
    Batch.commit env tt (some 10) b ≡ (err batch_committed, b)
commit_again_example = commit_again env tt none three tt (some 10)
