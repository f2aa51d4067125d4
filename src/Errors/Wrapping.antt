-- ===== src/Errors/Wrapping.antt =====
-- What a chain of `Wrap` calls leaves of an error.
use gokvkit.Prelude.{
  ℕ, ◌≡◌, refl, ◌∙◌, ap, Str, List, [], ◌∷◌, ◌++◌, append_assoc, append-nil, arith, ltb, is_empty,
  if◌then◌else◌,
}
use gokvkit.Errors.{Code, Error, GoError, custom, add_message, wrap_error}

-- The last code of the chain that is not 0.
abbrev pub last_code : Code → List (Code × Str) → Code
last_code c [] = c
last_code c ((k, m) ∷ ws) = last_code (if ltb 0 k then k else c) ws

abbrev pub texts : List (Code × Str) → List Str
texts [] = []
texts ((k, m) ∷ ws) = if is_empty m then texts ws else m ∷ texts ws

module _ (marshal : Error → Str) where
  abbrev pub wrap_all : GoError → List (Code × Str) → GoError
  wrap_all e [] = e
  wrap_all e ((k, m) ∷ ws) = wrap_all (wrap_error marshal e k m) ws

  texts_step :
      (ms : List Str) (k : Code) (m : Str) (ws : List (Code × Str))
      → add_message ms m ++ texts ws ≡ ms ++ texts ((k, m) ∷ ws)
  texts_step ms k [] ws = refl
  texts_step ms k (c ∷ m) ws = append_assoc ms ((c ∷ m) ∷ []) (texts ws)

  wrap_error_lem :
      (code : Code) (ms : List Str) (b : ℕ) (cause : Str) (k : Code) (m : Str)
      → wrap_error marshal (custom (record { code = code; messages = ms; err = b ∷ cause })) k m
        ≡ custom (record {
          code = if ltb 0 k then k else code;
          messages = add_message ms m;
          err = b ∷ cause;
        })
  unfolding wrap_error
  wrap_error_lem code ms b cause k m = ground arith

  -- Wrapping an error of this package that has a cause, any number of times, keeps the cause, takes
  -- the last code of the chain that is not 0 (or else its own), and appends the messages of the
  -- chain that are not empty, in order.
  pub wrap_all-custom :
      (code : Code) (messages : List Str) (b : ℕ) (cause : Str) (ws : List (Code × Str))
      → wrap_all (custom (record { code = code; messages = messages; err = b ∷ cause })) ws
        ≡ custom
            (record { code = last_code code ws; messages = messages ++ texts ws; err = b ∷ cause })
  wrap_all-custom code ms b cause [] = rw append-nil
  wrap_all-custom code ms b cause ((k, m) ∷ ws) =
      let code' : Code = if ltb 0 k then k else code in
      ap (λ e. wrap_all e ws) (wrap_error_lem code ms b cause k m)
      ∙ wrap_all-custom code' (add_message ms m) b cause ws
      ∙ ap (λ t. custom (record { code = last_code code' ws; messages = t; err = b ∷ cause }))
          (texts_step ms k m ws)
