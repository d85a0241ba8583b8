-- ===== src/Stats/Usage.antt =====
-- `docUsageStore` of internal/modules/stats/usage_store.go. Its lock is held over each operation,
-- so each is one run. The limits are those of the views, which are not negative.
pub mod Renames
pub mod Counts
use miti99bot.Base.{
  ℕ, ◌+◌, Bool, false, not, ◌&&◌, Option, none, some, List, [], ◌∷◌, ◌++◌, if◌then◌else◌, Text,
  codes, text_eq, Dict, lookup, insert, ℤ, pos, int_eq, negative,
}
use miti99bot.Storage.Contract.{Result, ok, err, DocStore, found_or_none}
use miti99bot.Storage.Program.{Program, pure, read, ◌>>=◌, ◌>>◌}
use miti99bot.Stats.{
  UsageEntry, UsageUser, Row, is_retired_command, usage_key, sort_rows, limit_rows,
}

abbrev or_zero : Option UsageEntry → UsageEntry
or_zero (some e) = e
or_zero none = record { cmd = []; user_id = pos 0; username = []; n = 0; deleted = false }

-- The entry that `Increment` writes
abbrev pub incremented : Text → Option UsageUser → Option UsageEntry → UsageEntry
incremented cmd none found = record {
  cmd = cmd;
  user_id = pos 0;
  username = [];
  n = (or_zero found).n + 1;
  deleted = false;
}
incremented cmd (some user) found = record {
  cmd = cmd;
  user_id = user.id;
  username = user.username;
  n = (or_zero found).n + 1;
  deleted = false;
}

abbrev pub id_or_zero : Option UsageUser → ℤ
id_or_zero none = pos 0
id_or_zero (some user) = user.id

-- The row that `refreshUsernameLocked` writes, if it does
unfoldable pub renamed : UsageUser → UsageEntry → Option UsageEntry
unfolding text_eq
renamed user e =
    if int_eq e.user_id user.id && not (text_eq e.username user.username)
    then some (record e { username = user.username })
    else if not (int_eq e.user_id user.id)
        && not (text_eq user.username [])
        && text_eq e.username user.username
    then some (record e { username = [] })
    else none

abbrev pub is_live : UsageEntry → Bool
is_live e = not e.deleted && not (is_retired_command e.cmd)

-- The totals of `TopCommands`
unfoldable pub add_command : UsageEntry → Dict ℕ → Dict ℕ
unfolding lookup insert is_retired_command
add_command e totals =
    let old : ℕ = elim (lookup e.cmd totals) [ none ↦ 0 | some n ↦ n ] in
    if is_live e then insert e.cmd (old + e.n) totals else totals

unfoldable pub command_totals : List UsageEntry → Dict ℕ → Dict ℕ
unfolding add_command
command_totals [] totals = totals
command_totals (e ∷ es) totals = command_totals es (add_command e totals)

unfoldable pub command_rows : Dict ℕ → List Row
command_rows [] = []
command_rows ((cmd, n) ∷ totals) =
    record { display = codes "/" ++ cmd; n = n } ∷ command_rows totals

-- The totals of `TopUsers`: a user's id, with the username read last and the count
add_to_user : UsageEntry → List (ℤ × Text × ℕ) → List (ℤ × Text × ℕ)
add_to_user e [] = (e.user_id, e.username, e.n) ∷ []
add_to_user e ((id, name, n) ∷ totals) =
    let rest = add_to_user e totals in
    if int_eq id e.user_id then (id, e.username, n + e.n) ∷ totals else (id, name, n) ∷ rest

unfoldable pub user_totals : List UsageEntry → List (ℤ × Text × ℕ) → List (ℤ × Text × ℕ)
unfolding add_to_user is_retired_command text_eq
user_totals [] totals = totals
user_totals (e ∷ es) totals =
    let skipped = user_totals es totals in
    let added = user_totals es (add_to_user e totals) in
    if is_live e && not (int_eq e.user_id (pos 0)) && not (text_eq e.username [])
    then added
    else skipped

unfoldable pub user_rows : List (ℤ × Text × ℕ) → List Row
user_rows [] = []
user_rows ((id, name, n) ∷ totals) =
    record { display = codes "@" ++ name; n = n } ∷ user_rows totals

-- The user that `CommandsByUser` finds
unfoldable pub user_named : Text → List UsageEntry → Option ℤ
unfolding is_retired_command text_eq
user_named username [] = none
user_named username (e ∷ es) =
    let rest = user_named username es in
    if is_live e && not (int_eq e.user_id (pos 0)) && text_eq e.username username
    then some e.user_id
    else rest

unfoldable pub rows_of_user : ℤ → List UsageEntry → List Row
unfolding is_retired_command
rows_of_user id [] = []
rows_of_user id (e ∷ es) =
    let rest = rows_of_user id es in
    if is_live e && int_eq e.user_id id
    then record { display = codes "/" ++ e.cmd; n = e.n } ∷ rest
    else rest

-- The rows of `UsersByCommand`
unfoldable pub rows_of_command : Text → List UsageEntry → List Row
unfolding text_eq
rows_of_command cmd [] = []
rows_of_command cmd (e ∷ es) =
    let rest = rows_of_command cmd es in
    if not e.deleted
      && text_eq e.cmd cmd
      && not (int_eq e.user_id (pos 0))
      && not (text_eq e.username [])
    then record { display = codes "@" ++ e.username; n = e.n } ∷ rest
    else rest

module _ {S : Type 0} (docs : DocStore S UsageEntry) where
  -- The loop of `loadEntriesLocked`
  unfoldable pub load_from : List Text → S → Result (List UsageEntry)
  unfolding text_eq
  load_from [] s = ok []
  load_from (key ∷ keys) s = elim (docs.get key s) [
    | err e ↦ err e
    | ok (entry, version) ↦ elim (load_from keys s) [
      | err e ↦ err e
      | ok entries ↦ ok (if text_eq entry.cmd [] then entries else entry ∷ entries)
    ]
  ]

  -- `loadEntriesLocked`
  unfoldable pub load_entries : S → Result (List UsageEntry)
  unfolding load_from
  load_entries s = elim (docs.list [] s) [ err e ↦ err e | ok keys ↦ load_from keys s ]

  -- The loop of `refreshUsernameLocked`
  unfoldable pub rename_rows : UsageUser → List UsageEntry → Program S (Unit {0})
  unfolding renamed usage_key
  rename_rows user [] = pure tt
  rename_rows user (e ∷ es) = elim (renamed user e) [
    | none ↦ rename_rows user es
    | some e' ↦ (docs.put (usage_key e.cmd e.user_id) e' >> rename_rows user es)
  ]

  -- `refreshUsernameLocked`
  unfoldable pub refresh_username : UsageUser → Program S (Unit {0})
  unfolding load_entries rename_rows
  refresh_username user = read load_entries >>= rename_rows user

  abbrev pub refresh_for : Option UsageUser → Program S (Unit {0})
  refresh_for none = pure tt
  refresh_for (some user) = refresh_username user

  -- `Increment` of a command that is not retired
  unfoldable pub count_use : Text → Option UsageUser → Program S (Unit {0})
  unfolding refresh_username usage_key
  count_use cmd user = do
    found ← read (λ s. found_or_none (docs.get (usage_key cmd (id_or_zero user)) s))
    docs.put (usage_key cmd (id_or_zero user)) (incremented cmd user found)
    refresh_for user

  -- `Increment`; no user when `hasUser` is false
  unfoldable pub increment : Text → Option UsageUser → Program S (Unit {0})
  unfolding count_use is_retired_command
  increment cmd user = if is_retired_command cmd then pure tt else count_use cmd user

  -- `TopCommands`
  unfoldable pub top_commands : ℕ → S → Result (List Row)
  unfolding load_entries command_totals command_rows sort_rows limit_rows
  top_commands limit s = elim (load_entries s) [
    | err e ↦ err e
    | ok entries ↦ ok (limit_rows (sort_rows (command_rows (command_totals entries []))) limit)
  ]

  -- `TopUsers`
  unfoldable pub top_users : ℕ → S → Result (List Row)
  unfolding load_entries user_totals user_rows sort_rows limit_rows
  top_users limit s = elim (load_entries s) [
    | err e ↦ err e
    | ok entries ↦ ok (limit_rows (sort_rows (user_rows (user_totals entries []))) limit)
  ]

  -- `CommandsByUser`; none if the user is not found
  unfoldable pub commands_by_user : Text → ℕ → S → Result (Option (List Row))
  unfolding load_entries user_named rows_of_user sort_rows limit_rows
  commands_by_user username limit s = elim (load_entries s) [
    | err e ↦ err e
    | ok entries ↦ elim (user_named username entries) [
      | none ↦ ok none
      | some id ↦ ok (some (limit_rows (sort_rows (rows_of_user id entries)) limit))
    ]
  ]

  -- `UsersByCommand`
  unfoldable pub users_by_command : Text → ℕ → S → Result (List Row)
  unfolding load_entries rows_of_command sort_rows limit_rows is_retired_command
  users_by_command cmd limit s =
      let rows : Result (List Row) = elim (load_entries s) [
        | err e ↦ err e
        | ok entries ↦ ok (limit_rows (sort_rows (rows_of_command cmd entries)) limit)
      ] in
      if is_retired_command cmd then ok [] else rows
