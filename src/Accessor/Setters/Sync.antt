-- ===== src/Accessor/Setters/Sync.antt =====
-- src/*.g.cpp: the setters that take effect at once.
use lib_aspl.Prelude.{ℕ, ◌≡◌, Bool, true, false, [], ◌∷◌, ◌++◌, arith}
use lib_aspl.Status.{Status, no_error, is_ok}
use lib_aspl.Accessor.Setters.{Notifying, set_value}

module _ {A D : Type 0} (equal : A → A → Bool) (get : D → A) (set_impl : A → D → Status × D)
    (selector : ℕ) (value : A) (s : Notifying D) where
  -- A setter that takes effect at once does nothing if the value is the one that is set; else, if
  -- the implementation succeeds, it makes the change and reports the property once, and if it
  -- fails, it returns that status and reports nothing.
  pub set_value_lem :
      let r = set_value equal get set_impl selector value s in
      (equal value (get s.0) ≡ true → r ≡ (no_error, s))
      × (equal value (get s.0) ≡ false
          → is_ok (set_impl value s.0).0 ≡ true
          → (is_ok r.0 ≡ true) × (r.1 ≡ ((set_impl value s.0).1, s.1 ++ selector ∷ [])))
      × (equal value (get s.0) ≡ false
          → is_ok (set_impl value s.0).0 ≡ false
          → (r.0 ≡ (set_impl value s.0).0) × (r.1.1 ≡ s.1))
  unfolding set_value
  set_value_lem = (ground arith, λ e f. ground arith, λ e f. ground arith)

  -- If a value that was set is read back, setting it again changes nothing, reports nothing and
  -- is no error.
  pub set_value_again :
      (reads : equal value (get (set_impl value s.0).1) ≡ true)
      (works : is_ok (set_impl value s.0).0 ≡ true)
      → let t = (set_value equal get set_impl selector value s).1 in
        (equal value (get t.0) ≡ true)
        × (set_value equal get set_impl selector value t ≡ (no_error, t))
  unfolding set_value
  set_value_again reads works = ground arith
