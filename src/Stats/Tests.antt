-- ===== src/Stats/Tests.antt =====
-- Counting over a concrete store, and the theorem at a concrete input.
use miti99bot.Base.{
  ℕ, ◌≡◌, refl, ap, ◌∙◌, inl, inr, false, Option, some, List, [], ◌∷◌, arith, Bool-cases,
  Option-cases, Mem, Text, codes, text_eq, has_prefix, text_eq→eq, lookup, insert, pos, format_int,
}
use miti99bot.Storage.Contract.{ok, DocStore, IsDocStore}
use miti99bot.Storage.Table.{
  table_keys, table_keys_lem, Table, table_store, table_view, table_version, table_store-IsDocStore,
}
use miti99bot.Stats.{UsageEntry, UsageUser, is_retired_command, usage_key}
use miti99bot.Stats.Usage.{
  renamed, load_from, load_entries, rename_rows, refresh_username, count_use, increment,
}
use miti99bot.Stats.Usage.Renames.{IsKeyed, name_after}
use miti99bot.Stats.Usage.Counts.{increment-rows}

abbrev Rows : Type 0
Rows = Table UsageEntry

abbrev set_rows : Rows → Rows → Rows
set_rows t s = t

abbrev docs : DocStore Rows UsageEntry
docs = table_store (λ s. s) set_rows

abbrev view : Rows → Text → Option UsageEntry
view = table_view (λ s. s) set_rows

abbrev version : Rows → Text → ℕ
version = table_version (λ s. s) set_rows

laws : IsDocStore docs view version
laws = table_store-IsDocStore (λ s. s) set_rows (λ t s. refl)

docs_lists :
    (t : Rows) (ks : List Text)
    → docs.list [] t ≡ ok ks
    → (k : Text) (e : UsageEntry) → view t k ≡ some e
    → Mem k ks
docs_lists t ks h k e at = elim (Option-cases (lookup k t)) [
  | inl missing ↦ absurd (ground (arith, missing, at))
  | inr (d, found) ↦
      let same : ks ≡ table_keys [] t = ground (arith, h) in rw same (table_keys_lem k d t found)
]

abbrev anonymous : UsageEntry
anonymous = record { cmd = codes "ping"; user_id = pos 0; username = []; n = 4; deleted = false }

abbrev by_ann : UsageEntry
by_ann = record {
  cmd = codes "ping";
  user_id = pos 7;
  username = codes "ann";
  n = 2;
  deleted = false;
}

abbrev help_by_ann : UsageEntry
help_by_ann = record by_ann { cmd = codes "help"; n = 5 }

abbrev rows : Rows
rows =
    (codes "ping", (anonymous, 4))
    ∷ (codes "ping:7", (by_ann, 2))
    ∷ (codes "help:7", (help_by_ann, 5))
    ∷ []

abbrev ann_renamed : UsageUser
ann_renamed = record { id = pos 7; username = codes "anna" }

runs : Unit {0}
unfolding increment count_use refresh_username load_entries load_from rename_rows renamed
    is_retired_command usage_key format_int text_eq lookup insert table_keys has_prefix name_after
runs = tt

rows-IsKeyed : IsKeyed docs view version laws rows
unfolding lookup usage_key format_int
rows-IsKeyed k e h used = elim (Bool-cases (text_eq (codes "ping") k)) [
  | inl p ↦
      let same : e ≡ anonymous = ground (arith, h, p) in
      ap (λ x. usage_key x.cmd x.user_id) same ∙ text_eq→eq (codes "ping") k p
  | inr p ↦ elim (Bool-cases (text_eq (codes "ping:7") k)) [
    | inl q ↦
        let same : e ≡ by_ann = ground (arith, h, p, q) in
        ap (λ x. usage_key x.cmd x.user_id) same ∙ text_eq→eq (codes "ping:7") k q
    | inr q ↦ elim (Bool-cases (text_eq (codes "help:7") k)) [
      | inl r ↦
          let same : e ≡ help_by_ann = ground (arith, h, p, q, r) in
          ap (λ x. usage_key x.cmd x.user_id) same ∙ text_eq→eq (codes "help:7") k r
      | inr r ↦ absurd (ground (arith, h, p, q, r))
    ]
  ]
]

increment-rows_example :
    view (increment docs (codes "ping") (some ann_renamed) rows).1 (codes "help:7")
    ≡ some (record {
      cmd = codes "help";
      user_id = pos 7;
      username = codes "anna";
      n = 5;
      deleted = false;
    })
unfolding runs
increment-rows_example =
    increment-rows docs view version laws docs_lists (codes "ping") (some ann_renamed) rows
      (codes "help:7") rows-IsKeyed refl refl

counts :
    view (increment docs (codes "ping") (some ann_renamed) rows).1 (codes "ping:7")
    ≡ some (record {
      cmd = codes "ping";
      user_id = pos 7;
      username = codes "anna";
      n = 3;
      deleted = false;
    })
unfolding runs
counts = refl
