-- ===== src/Examples/Brokers.antt =====
-- Clients of the brokers.
use tiles_processor.Base.{
  ◌+◌, ◌≡◌, refl, true, false, List, [], ◌∷◌, some, Text, codes, arith, map, return, raise,
}
use tiles_processor.WorkUnit.Body.{to_dict}
use tiles_processor.WorkUnit.Retry.{from_dict-to_dict}
use tiles_processor.Rabbit.{RabbitMqClient, connect, attempt}
use tiles_processor.Rabbit.Guards.{failed}
use tiles_processor.Rabbit.Polling.{IsBusy, sources, turns, sources-turns}
use tiles_processor.Examples.Data.{unit, broker, refusing, client}

abbrev dropped : RabbitMqClient broker
dropped = client broker (7, false) 1

gave_up : (connect refusing 3 (client refusing (0, false) 0)).0 ≡ raise failed
unfolding connect attempt
gave_up = refl

abbrev light : List Text
light = codes "radar" ∷ codes "wrf" ∷ []

never_dry : (q : Text) → IsBusy broker (codes "now") q
never_dry q = record {
  next = λ w. (w.0 + 1, w.1);
  tag = λ w. w.0;
  content = λ w. to_dict unit;
  unit = λ w. unit;
  answers = λ w. refl;
  readable = λ w. (from_dict-to_dict (codes "now") [] [] unit).0;
  stays = λ w h. h;
}

sources-turns_example :
    (ss : List Text) × ((sources broker (codes "now") light 3 (client broker (7, true) 0)).0
      ≡ return ss)
    × (map some ss ≡ turns broker (codes "now") light 1 3)
sources-turns_example =
    sources-turns broker (codes "now") light 3 (client broker (7, true) 0) (omega arith)
      (never_dry (codes "radar"), (never_dry (codes "wrf"), tt)) refl
