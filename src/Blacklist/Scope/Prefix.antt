-- ===== src/Blacklist/Scope/Prefix.antt =====
-- The keys of one list of one thread are told apart from all others by their prefix.
use miti99bot.Base.{
  suc, ◌≡◌, refl, sym, ◌∙◌, ◌≢◌, true, [], ◌∷◌, ◌++◌, arith, All, Text, has_prefix,
  has_prefix-split, ℤ, pos, negsuc, format_int, IsDigits, format_nat-IsDigits, format_int_injective,
}
use mathlib.Core.List.{append_assoc}
use miti99bot.Blacklist.Scope.{
  ListTag, list_black, list_white, tag_text, encode_key_text, scope_prefix, entry_key,
}

abbrev NoColon : Text → Type 0
NoColon = All (λ c. c ≢ b':')

digits-NoColon : (s : Text) → IsDigits s → NoColon s
digits-NoColon [] h = tt
digits-NoColon (c ∷ s) h = (λ e. omega arith, digits-NoColon s h.1)

format_int-NoColon : (n : ℤ) → NoColon (format_int n)
unfolding format_int
format_int-NoColon (pos n) = digits-NoColon _ (format_nat-IsDigits n)
format_int-NoColon (negsuc n) = (λ e. omega arith, digits-NoColon _ (format_nat-IsDigits (suc n)))

-- Two texts with a field up to the first colon have the same field and the same rest.
field_unique :
    (a b x y : Text) → NoColon a → NoColon b → a ++ (b':' ∷ x) ≡ b ++ (b':' ∷ y) → (a ≡ b) × (x ≡ y)
field_unique [] [] x y ha hb h = (refl, ground arith)
field_unique [] (d ∷ b) x y ha hb h = absurd (hb.0 (ground arith))
field_unique (c ∷ a) [] x y ha hb h = absurd (ha.0 (ground arith))
field_unique (c ∷ a) (d ∷ b) x y ha hb h = ground (arith, field_unique a b x y ha.1 hb.1)

-- A prefix and what follows, field by field.
abbrev fields : ℤ → ℤ → ListTag → Text → Text
fields chat_id thread_id list rest =
    format_int chat_id
    ++ (b':' ∷ (format_int thread_id ++ (b':' ∷ (tag_text list ++ (b':' ∷ rest)))))

scope_prefix-fields :
    (c t : ℤ) (l : ListTag) (rest : Text) → scope_prefix c t l ++ rest ≡ fields c t l rest
unfolding scope_prefix
scope_prefix-fields c t l rest = simp append_assoc

tag_text-NoColon : (l : ListTag) → NoColon (tag_text l)
tag_text-NoColon list_black = (λ e. omega arith, tt)
tag_text-NoColon list_white = (λ e. omega arith, tt)

tag_text_injective : (l m : ListTag) → tag_text l ≡ tag_text m → l ≡ m
tag_text_injective list_black list_black h = refl
tag_text_injective list_white list_white h = refl
tag_text_injective list_black list_white h = absurd (ground arith)
tag_text_injective list_white list_black h = absurd (ground arith)

fields_unique :
    (c c' t t' : ℤ) (l l' : ListTag) (x x' : Text)
    → fields c t l x ≡ fields c' t' l' x'
    → (c ≡ c') × (t ≡ t') × (l ≡ l') × (x ≡ x')
fields_unique c c' t t' l l' x x' h =
    let (ec, h1) = field_unique _ _ _ _ (format_int-NoColon c) (format_int-NoColon c') h in
    let (et, h2) = field_unique _ _ _ _ (format_int-NoColon t) (format_int-NoColon t') h1 in
    let (el, ex) = field_unique _ _ _ _ (tag_text-NoColon l) (tag_text-NoColon l') h2 in
    (format_int_injective c c' ec, format_int_injective t t' et, tag_text_injective l l' el, ex)

-- A rule's key lies under the prefix of a list of a thread only if it is a rule of that list of
-- that thread, for all signed chat and thread numbers and whatever colons the rule's text holds.
pub entry_key_scope :
    (chat chat' thread thread' : ℤ) (list list' : ListTag) (text : Text)
    → has_prefix (entry_key chat thread list text) (scope_prefix chat' thread' list') ≡ true
    → (chat ≡ chat') × (thread ≡ thread') × (list ≡ list')
unfolding entry_key
entry_key_scope chat chat' thread thread' list list' text h =
    let (r, e) = has_prefix-split _ (scope_prefix chat' thread' list') h in
    let (ec, et, el, _) =
      fields_unique chat chat' thread thread' list list' (encode_key_text text) r (
        sym (scope_prefix-fields chat thread list (encode_key_text text))
        ∙ e
        ∙ scope_prefix-fields chat' thread' list' r) in
    (ec, et, el)
