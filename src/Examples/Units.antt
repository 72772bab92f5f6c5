-- ===== src/Examples/Units.antt =====
-- Units of work, their messages, and the lines of a child.
use tiles_processor.Base.{
  ◌≡◌, [], ◌∷◌, some, codes, Exception, Result, return, raise, unprocessable_input, file_not_found,
}
use tiles_processor.WorkUnit.Body.{to_dict, from_dict, dead_letter}
use tiles_processor.WorkUnit.Retry.{from_dict-to_dict}
use tiles_processor.Worker.Subprocess.Boundary.{crossing, parent, raised, crossing_lem}
use tiles_processor.Examples.Data.{unit}

from_dict-to_dict_example :
    (from_dict (codes "now") (to_dict unit) ≡ some unit)
    × (from_dict (codes "now") (dead_letter unit (codes "bad") (codes "later")) ≡ some unit)
from_dict-to_dict_example = from_dict-to_dict (codes "now") (codes "later") (codes "bad") unit

abbrev missing : Exception
missing = record { kind = file_not_found; message = codes "gone" }

crossing_example :
    (raised (parent (λ e. codes "Traceback" ∷ []) [] (raise missing))
      ≡ some (crossing file_not_found))
    × (parent (λ e. codes "Traceback" ∷ []) [] (return tt) ≡ return tt)
crossing_example = crossing_lem (λ e. codes "Traceback" ∷ []) [] missing

abbrev cloudy : Result Unit
cloudy = raise (record { kind = unprocessable_input; message = codes "no lat" })
