-- ===== src/Domains/Subscriptions/Restored.antt =====
-- Where notifications go after a reconnect.
use fitz_py.Prelude.{
  ℕ, String, ◌≡◌, ◌≢◌, refl, ap, ◌∙◌, if◌then◌else◌, ◌==◌, Option, none, some, arith,
}
use fitz_py.Prelude.Dict.{get, put, pop, nat_key, get-put, get-pop}
use fitz_py.Errors.{ok}
use fitz_py.Text.{Str, str_key}
use fitz_py.Domains.Subscriptions.{
  WireSubscription, SubscriptionRegistry, flush_pending, moved, restore_one,
}

module _ {T : Type 0} where
  moved-by_id :
      (registration : Str) (new_id : ℕ) (w : Option WireSubscription) (r : SubscriptionRegistry T)
      → (moved registration new_id w r).by_id ≡ r.by_id
  unfolding moved flush_pending
  moved-by_id registration new_id none r = refl
  moved-by_id registration new_id (some w) r = refl

  -- When the broker takes a registration again, its new id leads to it, its old id leads nowhere
  -- unless it is the new one, and every other id leads where it did.
  pub get-restore_one :
      (domain : String) (registration : Str) (old_id new_id n : ℕ) (r : SubscriptionRegistry T)
      → get n (restore_one domain registration old_id (ok new_id) r).by_id
        ≡ (if new_id == n then some registration else if old_id == n then none else get n r.by_id)
  unfolding restore_one
  get-restore_one domain registration old_id new_id n r =
      ap (get n) (
        moved-by_id registration new_id _
          (record r { by_id = put new_id registration (pop old_id r.by_id) }))
      ∙ ground (arith, get-put new_id n registration (pop old_id r.by_id), get-pop old_id n r.by_id)

  -- When the broker gives a registration the id that another one had before the reconnect, and that
  -- other one is restored after it under a third id, then the first one's id leads nowhere.
  pub restore_one-collision :
      (domain : String) (first second : Str) (old_first old_second new_second : ℕ)
      (r : SubscriptionRegistry T)
      → new_second ≢ old_second
      → get old_second
          (restore_one domain second old_second
            (ok new_second)
            (restore_one domain first old_first (ok old_second) r)).by_id
        ≡ none
  restore_one-collision domain first second old_first old_second new_second r h =
      get-restore_one domain second old_second new_second old_second _ ∙ ground arith
