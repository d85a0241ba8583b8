-- ===== src/Modules/Dispatcher/Access.antt =====
-- Who may run what.
use miti99bot.Base.{◌≡◌, refl, ◌≢◌, ◌↔◌, ◌⊎◌, true, some, arith, ℤ, pos, int_eq_iff}
use miti99bot.Modules.{
  Visibility, visibility_public, visibility_protected, visibility_private, visibility_unlisted,
  other_visibility,
}
use miti99bot.Modules.Dispatcher.{Auth, Update, sender_id, permits}

-- Those whom the documentation of `Visibility` lets in: everyone to what is public or unlisted, the
-- owner to what is private, the owner and the administrators to what is protected. The id 0 is
-- nobody.
unfoldable pub IsAllowed : Auth → Visibility → ℤ → Type 0
IsAllowed auth visibility_public id = Unit
IsAllowed auth visibility_unlisted id = Unit
IsAllowed auth visibility_private id = (id ≢ pos 0) × (id ≡ auth.bot_owner_id)
IsAllowed auth visibility_protected id =
    (id ≢ pos 0) × ((id ≡ auth.bot_owner_id) ⊎ (auth.admin_user_ids id ≡ true))
IsAllowed auth (other_visibility n) id = ⊥

-- `Permits` lets an update run something of a visibility exactly if its sender is one of those whom
-- the documentation names: everyone for what is public or unlisted; the owner, whose id is not 0,
-- for what is private; for what is protected the owner and the administrators, if their id is not
-- 0; nobody for any other visibility.
pub permits_iff :
    (auth : Auth) (v : Visibility) (u : Update)
    → (permits auth v (some u) ≡ true) ↔ IsAllowed auth v (sender_id u)
unfolding permits IsAllowed
permits_iff auth visibility_public u = ((λ h. tt), (λ h. refl))
permits_iff auth visibility_unlisted u = ((λ h. tt), (λ h. refl))
permits_iff auth visibility_private u =
    let zero_test = int_eq_iff (sender_id u) (pos 0) in
    let owner_zero = int_eq_iff auth.bot_owner_id (pos 0) in
    let owner_test = int_eq_iff (sender_id u) auth.bot_owner_id in
    (
      (λ h. ground (arith, zero_test, owner_zero, owner_test)),
      (λ h. ground (arith, zero_test, owner_zero, owner_test)),
    )
permits_iff auth visibility_protected u =
    let zero_test = int_eq_iff (sender_id u) (pos 0) in
    let owner_zero = int_eq_iff auth.bot_owner_id (pos 0) in
    let owner_test = int_eq_iff (sender_id u) auth.bot_owner_id in
    (
      (λ h. ground (arith, zero_test, owner_zero, owner_test)),
      (λ h. ground (arith, zero_test, owner_zero, owner_test)),
    )
permits_iff auth (other_visibility n) u = ((λ h. ground arith), (λ h. absurd h))
