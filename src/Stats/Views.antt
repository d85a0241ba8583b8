-- ===== src/Stats/Views.antt =====
-- The views of `/stats` (internal/modules/stats/views.go), up to the reply that is sent.
pub mod Size
use miti99bot.Base.{
  ℕ, suc, Bool, not, ◌&&◌, ◌||◌, Option, none, some, List, [], ◌∷◌, ◌++◌, ltb, ◌==◌, if◌then◌else◌,
  length, take, drop, Text, codes, text_eq, ℤ, pos, negsuc, format_nat, int_lt, int_add, format_nat,
}
use miti99bot.Storage.Contract.{Result, ok, err, DocStore}
use miti99bot.Blacklist.Handlers.{fields, trim_prefix}
use miti99bot.Stats.{UsageEntry, Row}
use miti99bot.Stats.Usage.{top_commands, top_users, commands_by_user, users_by_command}

abbrev top_k : ℕ
top_k = 20

unfoldable pub telegram_max_len : ℕ
telegram_max_len = 4000

row_lines : List Row → Text
unfolding format_nat
row_lines [] = []
row_lines (r ∷ rs) = r.display ++ (codes ": " ++ (format_nat r.n ++ (10 ∷ row_lines rs)))

-- `strings.TrimSuffix(s, "\n")`
trim_newline : Text → Text
trim_newline [] = []
trim_newline (c ∷ []) = if c == 10 then [] else c ∷ []
trim_newline (c ∷ d ∷ s) = c ∷ trim_newline (d ∷ s)

-- `strings.LastIndexByte`; none is -1.
last_index_byte : Text → ℕ → Option ℕ
last_index_byte [] b = none
last_index_byte (c ∷ s) b = elim (last_index_byte s b) [
  | some i ↦ some (suc i)
  | none ↦ if c == b then some 0 else none
]

truncation_mark : Text
truncation_mark = 10 ∷ 0xE2 ∷ 0x80 ∷ 0xA6 ∷ codes "(truncated)"

cut_off : Text → ℕ
unfolding last_index_byte
cut_off output = elim (last_index_byte (take telegram_max_len output) 10) [
  | none ↦ telegram_max_len
  | some i ↦ if i == 0 then telegram_max_len else i
]

-- `renderTopN`
unfoldable pub render_top_n : Text → List Row → ℕ → Text
unfolding row_lines trim_newline cut_off truncation_mark
render_top_n header rows k =
    let shown = if not (k == 0) && ltb k (length rows) then take k rows else rows in
    let output = trim_newline (header ++ (10 ∷ row_lines shown)) in
    if ltb telegram_max_len (length output)
    then take (cut_off output) output ++ truncation_mark
    else output

-- The entities of a message: whether one is a bot command, its offset and its length
abbrev Entity : Type 0
Entity = Bool × ℤ × ℤ

trim_left_blank : Text → Text
trim_left_blank [] = []
trim_left_blank (c ∷ s) = if c == 32 || c == 9 then trim_left_blank s else c ∷ s

-- `parseSubargs`
unfoldable pub parse_subargs : Text → List Entity → Text
unfolding trim_left_blank
parse_subargs text [] = []
parse_subargs text ((is_command, offset, size) ∷ entities) =
    let rest = parse_subargs text entities in
    elim (int_add offset size) [
      | negsuc n ↦ rest
      | pos end_at ↦
          if not is_command
          then rest
          else if int_lt offset (pos 0) || ltb (length text) end_at || int_lt size (pos 1)
          then rest
          else trim_left_blank (drop end_at text)
    ]

-- What `renderStats` returns: a fixed text, or a table.
pub data View : Type 0 where
  load_failed no_commands no_users stats_usage : View
  user_not_found no_user_commands no_command_users : Text → View
  table : Text → View

module _ {S : Type 0} (docs : DocStore S UsageEntry) where
  abbrev shown_or : Result (List Row) → View → Text → View
  shown_or (err e) empty header = load_failed
  shown_or (ok []) empty header = empty
  shown_or (ok (r ∷ rs)) empty header = table (render_top_n header (r ∷ rs) top_k)

  -- `viewTopCommands`, `viewTopUsers`, `viewCmdUsers` and `viewUserCommands`
  unfoldable pub view_top_commands : S → View
  unfolding top_commands render_top_n
  view_top_commands s = shown_or (top_commands docs top_k s) no_commands (codes "Command usage:")

  unfoldable pub view_top_users : S → View
  unfolding top_users render_top_n
  view_top_users s = shown_or (top_users docs top_k s) no_users (codes "Top users:")

  unfoldable pub view_cmd_users : Text → S → View
  unfolding users_by_command render_top_n
  view_cmd_users cmd s =
      shown_or (users_by_command docs cmd top_k s) (no_command_users cmd)
        (codes "Users of /" ++ (cmd ++ codes ":"))

  unfoldable pub view_user_commands : Text → S → View
  unfolding commands_by_user render_top_n
  view_user_commands username s = elim (commands_by_user docs username top_k s) [
    | err e ↦ load_failed
    | ok found ↦ elim found [
      | none ↦ user_not_found username
      | some rows ↦
          shown_or (ok rows) (no_user_commands username)
            (codes "Commands by @" ++ (username ++ codes ":"))
    ]
  ]

  -- `renderStats` of a first word and the ones after it
  unfoldable pub view_of : Text → List Text → S → View
  unfolding view_top_users view_user_commands view_cmd_users text_eq
  view_of word words s =
      let by_user : View = elim words [
        | [] ↦ stats_usage
        | name ∷ more ↦ view_user_commands (trim_prefix name (codes "@")) s
      ] in
      let by_command : View = elim words [
        | [] ↦ stats_usage
        | name ∷ more ↦
            let cmd = trim_prefix name (codes "/") in
            if text_eq cmd [] then stats_usage else view_cmd_users cmd s
      ] in
      if text_eq word (codes "users")
      then view_top_users s
      else if text_eq word (codes "user")
      then by_user
      else if text_eq word (codes "cmd")
      then by_command
      else stats_usage

  -- `renderStats`
  unfoldable pub render_stats : Text → S → View
  unfolding view_of view_top_commands
  render_stats args s = elim (fields args) [
    | [] ↦ view_top_commands s
    | word ∷ words ↦ view_of word words s
  ]
