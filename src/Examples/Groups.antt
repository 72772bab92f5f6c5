-- ===== src/Examples/Groups.antt =====
-- Child processes at a shutdown.
use tiles_processor.Base.{return, some, codes, text_eq, [], ◌∷◌, ◌≡◌, refl, true, false, contains}
use tiles_processor.Worker.Children.{
  Children, no_children, abort, force_kill, add_process, test_aborting, discard_process, adds,
  tests, discards, aborts, Reach, here, next, is_quiet, Quiet, rests, goes,
}
use tiles_processor.Worker.Teardown.{finished_at_key, read_stage_timings}
use tiles_processor.Worker.Children.Signals.{Reach-termed, late-killed}

-- One child runs when the shutdown comes, and one is spawned later.
abbrev shut_down : Children
shut_down = test_aborting 8 (add_process 8 (abort (test_aborting 7 (add_process 7 no_children))))

shut_down-reached : Reach no_children shut_down
unfolding abort add_process test_aborting contains
shut_down-reached =
    next
      (next (next (next (next here (adds 7 refl refl)) (tests 7 refl)) aborts) (adds 8 refl refl))
      (tests 8 refl)

Reach-termed_example : contains 8 shut_down.termed ≡ true
unfolding abort add_process test_aborting contains
Reach-termed_example = Reach-termed 8 shut_down-reached refl refl refl refl

-- The escalation is over.
abbrev escalated : Children
escalated = force_kill shut_down

abbrev late : Children
late = discard_process 8 (test_aborting 9 (add_process 9 escalated))

late-Quiet : Quiet (test_aborting 9 (add_process 9 escalated)) late
unfolding abort add_process test_aborting contains force_kill is_quiet
late-Quiet = goes rests (discards 8 refl) refl

late-killed_example :
    (contains 9 (test_aborting 9 (add_process 9 escalated)).termed ≡ true)
    × (contains 9 late.killed ≡ false)
unfolding abort add_process test_aborting contains force_kill
late-killed_example = late-killed escalated 9 refl refl refl refl late-Quiet

-- What the first child leaves, and how long it took to end after that.
read_back :
    read_stage_timings (return (some ((codes "upload", 5) ∷ (finished_at_key, 40) ∷ []))) 42
    ≡ (codes "upload", 5) ∷ (codes "teardown", 2) ∷ []
unfolding read_stage_timings text_eq
read_back = refl
