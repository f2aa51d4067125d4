-- ===== src/Errors/Tests.antt =====
-- A query that is forbidden, as `Get` and `Tx` wrap its error.
use gokvkit.Prelude.{◌≡◌, str, Str, [], ◌∷◌}
use gokvkit.Errors.{Error, custom, new}
use gokvkit.Errors.Wrapping.{wrap_all, wrap_all-custom}

abbrev plain : Error → Str
plain e = e.err

-- A forbidden query below `Get`, wrapped as `Get` and `Tx` do, is reported as "not found".
wrap_all-custom_example :
    wrap_all plain (new 403 (str "no")) ((404, str "a") ∷ (0, str "tx") ∷ [])
    ≡ custom (record { code = 404; messages = str "a" ∷ str "tx" ∷ []; err = str "no" })
wrap_all-custom_example =
    wrap_all-custom plain 403 [] 110 (str "o") ((404, str "a") ∷ (0, str "tx") ∷ [])
