-- ===== src/Write/Ledger/Key.antt =====
-- What an idempotency key tells apart.
use whmcs_mcp_server.Prelude.{ℕ, ◌/◌, ◌≡◌, ◌↔◌, String, refl, ◌⊕◌}
use text.Mathlib.TextLemmas.{append_cancel_left, append_cancel_right}
use whmcs_mcp_server.Write.Ledger.{window_width, key_material, idempotency_key}

module _ (sha256 : String → String) (show : ℕ → String) (consumer_id action natural_key : String)
    (window_ms : ℕ) where
  abbrev pub material : String → ℕ → String
  material scope now = key_material show consumer_id action scope natural_key window_ms now

  abbrev pub key : String → ℕ → String
  key scope now = idempotency_key sha256 show consumer_id action scope natural_key window_ms now

  abbrev pub window : ℕ → ℕ
  window now = now / window_width window_ms

  -- What the keys of two requests tell of their scopes and of their times.
  pub record TellsApart (scope scope' : String) (now later : ℕ) : Type 0 where
    pub hashed : key scope now ≡ sha256 (material scope now)
    pub windows : (material scope now ≡ material scope later) ↔ (window now ≡ window later)
    pub scopes :
        window now ≡ window later → (material scope now ≡ material scope' later) ↔ (scope ≡ scope')

  after_scope :
      (scope : String) (x y : String)
      → (consumer_id ⊕ " " ⊕ action ⊕ " " ⊕ x) ≡ (consumer_id ⊕ " " ⊕ action ⊕ " " ⊕ y)
      → x ≡ y
  after_scope scope x y e = append_cancel_left " " _ _ (
      append_cancel_left action _ _
        (append_cancel_left " " _ _ (append_cancel_left consumer_id _ _ e)))

  -- A key is the hash of a text, and that text tells scopes and windows apart: where numbers are
  -- rendered faithfully, two requests that agree on consumer, action, scope and natural key have
  -- the same text exactly when their times fall into the same window; and two requests of the same
  -- window that agree on all but the scope have the same text exactly when their scopes are the
  -- same. Nothing is asked of the hash.
  pub key_material-TellsApart :
      ((m n : ℕ) → show m ≡ show n → m ≡ n)
      → (scope scope' : String) (now later : ℕ) → TellsApart scope scope' now later
  unfolding key_material idempotency_key
  key_material-TellsApart show_injective scope scope' now later = record {
    hashed = refl;
    windows = (
      λ e. show_injective _ _ (
          append_cancel_left " " _ _ (
            append_cancel_left natural_key _ _ (
              append_cancel_left " " _ _
                (append_cancel_left scope _ _ (after_scope scope _ _ e))))),
      λ w. rw w refl,
    );
    scopes = λ w. (
      λ e.
          append_cancel_right scope scope' (" " ⊕ natural_key ⊕ " " ⊕ show (window later))
            (after_scope scope _ _ (rw w at e)),
      λ s. rw (w, s) refl,
    );
  }
