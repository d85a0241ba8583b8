-- ===== src/Storage/Reads.antt =====
-- What a client of a `DocStore` may conclude from a read.
use miti99bot.Base.{ℕ, ◌≡◌, refl, Option, arith, Text}
use miti99bot.Storage.Contract.{
  not_found, conflict, invalid_module_name, codec, backend, empty_word_list, index_panic, bad_key,
  Result, ok, err, DocStore, IsDocStore, found_or_none,
}

-- A read that treats a missing key as no error returns what the state holds.
pub found_or_none-view :
    {S V : Type 0} (d : DocStore S V) (view : S → Text → Option V) (version : S → Text → ℕ)
    → IsDocStore d view version
    → (k : Text) (s : S) (o : Option V) → found_or_none (d.get k s) ≡ ok o
    → view s k ≡ o
found_or_none-view {V} d view version laws k s o h = go (d.get k s) refl h
  where
    go : (r : Result (V × ℕ)) → d.get k s ≡ r → found_or_none r ≡ ok o → view s k ≡ o
    go (ok (v, n)) e f = ground (arith, laws.get_ok k s v n e)
    go (err not_found) e f = ground (arith, laws.get_missing k s e)
    go (err conflict) e f = cc
    go (err invalid_module_name) e f = cc
    go (err codec) e f = cc
    go (err backend) e f = cc
    go (err empty_word_list) e f = cc
    go (err index_panic) e f = cc
    go (err (bad_key x)) e f = cc
