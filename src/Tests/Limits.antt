-- ===== src/Tests/Limits.antt =====
-- rust/fhs/src/p2p/limits.rs on concrete inputs.
use galax_ia_sdk.Prelude.{◌≡◌, refl, some, [], ◌∷◌}
use galax_ia_sdk.Prelude.Result.{ok}
use galax_ia_sdk.Prelude.Dict.{get, insert, remove}
use galax_ia_sdk.Limits.{
  release_entry, give_back, State, StreamPermit, init, open_of, try_admit, drop,
}
use galax_ia_sdk.Limits.Reach.{Node, admit, Reach, begin, next, Inv, start, Reach-Inv, release}

abbrev one_open : State
one_open = record { total = 1; per_peer = (5, 1) ∷ [] }

abbrev permit : StreamPermit
permit = record { peer = 5 }

abbrev busy : Node
busy = record { state = one_open; held = permit ∷ [] }

admit_run : try_admit init 5 ≡ (one_open, ok permit)
unfolding try_admit open_of get insert
admit_run = refl

busy-Reach : Reach busy
busy-Reach = next begin (admit start 5 one_open permit admit_run)

Reach-Inv_example : Inv busy
Reach-Inv_example = Reach-Inv busy-Reach

drop_run : drop one_open permit ≡ some init
unfolding drop release_entry give_back get insert remove
drop_run = refl

idle-Reach : Reach start
idle-Reach = next busy-Reach (release one_open init [] permit [] drop_run)

abbrev crowded : State
crowded = record { total = 8; per_peer = (5, 8) ∷ [] }
