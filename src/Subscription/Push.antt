-- ===== src/Subscription/Push.antt =====
-- The daily push to the members of the list (internal/modules/util/subscription/push.go). What
-- Telegram answers is a parameter: for each send, by its number, the text of the error or none; and
-- so is whether the context is done at each wait, and the order in which Go runs over the map of
-- dead chats.
pub mod Counts
use miti99bot.Base.{
  ℕ, suc, ◌+◌, Bool, true, false, not, ◌&&◌, ◌||◌, Option, none, some, List, [], ◌∷◌, ◌++◌, map,
  ltb, ◌==◌, if◌then◌else◌, length, Text, codes, ℤ, int_eq, contains,
}
use miti99bot.Storage.Contract.{Result, ok, err, DocStore}
use miti99bot.Subscription.{Subscriber, Subscribers, remove, remove_all_for_chat}

-- `TerminalKind`
pub data TerminalKind : Type 0 where
  terminal_none terminal_chat_wide terminal_topic_only : TerminalKind

abbrev chat_wide_terminal_markers : List Text
chat_wide_terminal_markers =
    codes "bot was blocked by the user"
    ∷ codes "user is deactivated"
    ∷ codes "bot is not a member"
    ∷ codes "chat not found"
    ∷ codes "group chat was upgraded"
    ∷ codes "chat was deleted"
    ∷ []

abbrev topic_only_terminal_markers : List Text
topic_only_terminal_markers = codes "have no rights to send" ∷ []

contains_any : Text → List Text → Bool
contains_any msg [] = false
contains_any msg (m ∷ ms) = contains msg m || contains_any msg ms

-- `ClassifyTerminal`; none is no error.
unfoldable pub classify_terminal : Option Text → TerminalKind
unfolding contains_any
classify_terminal none = terminal_none
classify_terminal (some msg) =
    if contains_any msg chat_wide_terminal_markers
    then terminal_chat_wide
    else if contains_any msg topic_only_terminal_markers
    then terminal_topic_only
    else terminal_none

-- What the loop of `Fanout` carries.
pub record Progress : Type 0 where
  pub sent : ℕ
  pub failed : ℕ
  pub dead_chats : List ℤ
  pub dead_topics : Subscribers

abbrev pub no_progress : Progress
no_progress = record { sent = 0; failed = 0; dead_chats = []; dead_topics = [] }

pub has_chat : ℤ → List ℤ → Bool
has_chat c [] = false
has_chat c (d ∷ ds) = int_eq d c || has_chat c ds

-- `deadChats[chatID] = struct{}{}`
abbrev note_chat : ℤ → List ℤ → List ℤ
note_chat c ds = if has_chat c ds then ds else ds ++ c ∷ []

abbrev pub note_failure : Subscriber → TerminalKind → Progress → Progress
note_failure sub terminal_none p = record p { failed = suc p.failed }
note_failure sub terminal_chat_wide p = record p {
  failed = suc p.failed;
  dead_chats = note_chat sub.chat_id p.dead_chats;
}
note_failure sub terminal_topic_only p = record p {
  failed = suc p.failed;
  dead_topics = p.dead_topics ++ sub ∷ [];
}

abbrev pub note_send : Subscriber → Option Text → Progress → Progress
note_send sub none p = record p { sent = suc p.sent }
note_send sub (some msg) p = note_failure sub (classify_terminal (some msg)) p

abbrev pub rate_limit_threshold : ℕ
rate_limit_threshold = 30

module _ (send : ℕ → Subscriber → Option Text) (is_done : ℕ → Bool) where
  -- The loop of `Fanout` from round `i`; the Boolean says that it ran to its end.
  pub send_all : Bool → ℕ → Subscribers → Progress → Bool × Progress
  send_all throttled i [] p = (true, p)
  send_all throttled i (sub ∷ subs) p =
      let rest = send_all throttled (suc i) subs (note_send sub (send i sub) p) in
      if throttled && ltb 0 i && is_done i then (false, p) else rest

module _ {S : Type 0} (store : DocStore S Subscribers) where
  abbrev pub removed_count : Result ℕ → ℕ
  removed_count (ok n) = n
  removed_count (err e) = 0

  abbrev pub removed_one : Result Bool → ℕ
  removed_one (ok true) = 1
  removed_one (ok false) = 0
  removed_one (err e) = 0

  -- The first loop of `prune`
  pub prune_chats : List ℤ → ℕ → S → ℕ × S
  prune_chats [] removed s = (removed, s)
  prune_chats (c ∷ cs) removed s =
      prune_chats cs (removed + removed_count (remove_all_for_chat store c s).0)
        (remove_all_for_chat store c s).1

  -- The second loop of `prune`
  pub prune_topics : List ℤ → Subscribers → ℕ → S → ℕ × S
  prune_topics chat_wide [] removed s = (removed, s)
  prune_topics chat_wide (sub ∷ subs) removed s = elim (has_chat sub.chat_id chat_wide) [
    | true ↦ prune_topics chat_wide subs removed s
    | false ↦
        prune_topics chat_wide subs
          (removed + removed_one (remove store sub.chat_id sub.thread_id s).0)
          (remove store sub.chat_id sub.thread_id s).1
  ]

  -- `prune`, for the dead chats in the order in which they are run over
  unfoldable pub prune : List ℤ → Subscribers → S → ℕ × S
  unfolding prune_chats prune_topics
  prune chat_wide topic_only s =
      if length chat_wide == 0 && length topic_only == 0
      then (0, s)
      else prune_topics chat_wide topic_only (prune_chats chat_wide 0 s).0
          (prune_chats chat_wide 0 s).1

-- `Result` of a push
pub record PushResult : Type 0 where
  pub sent : ℕ
  pub failed : ℕ
  pub pruned : ℕ
  pub throttled : Bool

module _ {S : Type 0} (store : DocStore S Subscribers) (send : ℕ → Subscriber → Option Text)
    (is_done : ℕ → Bool) (map_order : List ℤ → List ℤ) where
  -- `Fanout`; the Boolean is true if it returns no error.
  unfoldable pub fanout : Subscribers → S → (Bool × PushResult) × S
  unfolding send_all prune
  fanout subs s =
      let throttled = ltb rate_limit_threshold (length subs) in
      let (finished, p) = send_all send is_done throttled 0 subs no_progress in
      let (pruned, s') = prune store (map_order p.dead_chats) p.dead_topics s in
      if finished
      then (
        (true, record { sent = p.sent; failed = p.failed; pruned = pruned; throttled = throttled }),
        s',
      )
      else (
        (false, record { sent = p.sent; failed = p.failed; pruned = 0; throttled = throttled }),
        s,
      )
