-- ===== src/Stats/Usage/Counts.antt =====
-- An increment counts one use in one row, and carries a change of username to every row of its
-- user.
use miti99bot.Base.{
  ℕ, ◌+◌, ◌≡◌, refl, sym, ap, ◌∙◌, inl, inr, false, Option, none, some, List, [], arith,
  if◌then◌else◌, Bool-cases, Mem, Text, text_eq, text_eq→eq, int_eq_iff,
}
use miti99bot.Storage.Contract.{ok, DocStore, IsDocStore, found_or_none}
use miti99bot.Storage.Program.{Result-cases}
use miti99bot.Storage.Reads.{found_or_none-view}
use miti99bot.Stats.{UsageEntry, UsageUser, is_retired_command, usage_key}
use miti99bot.Stats.Usage.{incremented, id_or_zero, refresh_for, count_use, increment}
use miti99bot.Stats.Usage.Renames.{IsKeyed, name_after, rows_after, refresh_for-rows}

abbrev pub count_of : Option UsageEntry → ℕ
count_of none = 0
count_of (some e) = e.n

abbrev pub name_or_empty : Option UsageUser → Text
name_or_empty none = []
name_or_empty (some user) = user.username

incremented_lem :
    (cmd : Text) (user : Option UsageUser) (found : Option UsageEntry)
    → incremented cmd user found ≡ record {
      cmd = cmd;
      user_id = id_or_zero user;
      username = name_or_empty user;
      n = count_of found + 1;
      deleted = false;
    }
incremented_lem cmd none none = refl
incremented_lem cmd none (some e) = refl
incremented_lem cmd (some u) none = refl
incremented_lem cmd (some u) (some e) = refl

incremented-kept :
    (cmd : Text) (user : Option UsageUser) (found : Option UsageEntry)
    → rows_after user (some (incremented cmd user found)) ≡ some (incremented cmd user found)
unfolding name_after
incremented-kept cmd none found = refl
incremented-kept cmd (some user) found = ground (arith, (int_eq_iff user.id user.id).1 refl)

module _ {S : Type 0} (docs : DocStore S UsageEntry) (view : S → Text → Option UsageEntry)
    (version : S → Text → ℕ) (laws : IsDocStore docs view version) where
  abbrev Keyed : S → Type 0
  Keyed = IsKeyed docs view version laws

  put-IsKeyed :
      (cmd : Text) (user : Option UsageUser) (found : Option UsageEntry) (s : S)
      → Keyed s
      → (docs.put (usage_key cmd (id_or_zero user)) (incremented cmd user found) s).0 ≡ ok tt
      → Keyed (docs.put (usage_key cmd (id_or_zero user)) (incremented cmd user found) s).1
  put-IsKeyed cmd user found s keyed w k e at used =
      let key = usage_key cmd (id_or_zero user) in
      let entry = incremented cmd user found in
      elim (Bool-cases (text_eq key k)) [
        | inl hit ↦
            let same : e ≡ entry = ground (arith, at, hit, laws.put_ok key k entry s w) in
            ap (λ x. usage_key x.cmd x.user_id) same
            ∙ ap (λ x. usage_key x.cmd x.user_id) (incremented_lem cmd user found)
            ∙ text_eq→eq key k hit
        | inr miss ↦ keyed k e (ground (arith, at, miss, laws.put_ok key k entry s w)) used
      ]

  module _
      (lists : (t : S) (ks : List Text)
        → docs.list [] t ≡ ok ks
        → (k : Text) (e : UsageEntry) → view t k ≡ some e
        → Mem k ks) where
    -- For a store that keeps the contract and lists every key that holds a row, and in which each
    -- row of a command stands under the key of its command and user: an increment of a command
    -- that is not retired, if it ends without an error, leaves under the key of the command and
    -- the user a row of them that is not deleted, with the user's current name, whose count is
    -- one more than before, 1 for a new row; without a user its user id is 0 and its name empty.
    -- Every other row keeps all but its name. If the increment has a user, each other row of a
    -- command that is one of this user's gets the current name too, and one of another user that
    -- held this name loses it; all other names stay.
    pub increment-rows :
        (cmd : Text) (user : Option UsageUser) (s : S) (k : Text)
        → Keyed s
        → is_retired_command cmd ≡ false
        → (increment docs cmd user s).0 ≡ ok tt
        → view (increment docs cmd user s).1 k ≡ (
            if text_eq (usage_key cmd (id_or_zero user)) k
            then some (record {
              cmd = cmd;
              user_id = id_or_zero user;
              username = name_or_empty user;
              n = count_of (view s k) + 1;
              deleted = false;
            })
            else rows_after user (view s k))
    unfolding increment count_use
    increment-rows cmd user s k keyed live h =
        let key = usage_key cmd (id_or_zero user) in
        elim (Result-cases (found_or_none (docs.get key s))) [
          | inr (x, e) ↦ absurd (ground (arith, h, live, e))
          | inl (found, e) ↦
              let entry = incremented cmd user found in
              let old = found_or_none-view docs view version laws key s found e in
              elim (Result-cases (docs.put key entry s).0) [
                | inr (x, w) ↦ absurd (ground (arith, h, live, e, w))
                | inl (u, w) ↦
                    let s' = (docs.put key entry s).1 in
                    let run : increment docs cmd user s ≡ refresh_for docs user s' =
                      ground (arith, live, e, w) in
                    let kept =
                      refresh_for-rows docs view version laws lists user s' k
                        (put-IsKeyed cmd user found s keyed w) (ap (λ x. x.0) (sym run) ∙ h) in
                    ap (λ x. view x.1 k) run ∙ elim (Bool-cases (text_eq key k)) [
                      | inl hit ↦ ground (
                        arith,
                        kept,
                        hit,
                        text_eq→eq key k hit,
                        laws.put_ok key k entry s w,
                        old,
                        incremented_lem cmd user found,
                        incremented-kept cmd user found,
                      )
                      | inr miss ↦ ground (arith, kept, miss, laws.put_ok key k entry s w)
                    ]
              ]
        ]
