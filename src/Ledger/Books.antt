-- ===== src/Ledger/Books.antt =====
-- Double entry in `postJournal` (packages/ledger/src/ledger.ts).
use z_float_2_main.Prelude.{
  ℕ, ◌≡◌, refl, false, not, List, [], ◌∷◌, arith, ◌==◌, if◌then◌else◌, Bool-cases, inl, inr,
}
use z_float_2_main.Prelude.Int.{ℤ, pos, ◌+ℤ◌, eqb_ℤ, int_laws, eq_of_parts, +ℤ-zero}
use mathlib.Core.Path.{ap₂, sym, ◌∙◌}
use z_float_2_main.Exec.Keeps.{Keeps}
use z_float_2_main.Exec.Post.{
  Post, Post-pure, Post-gets, Post-modify, Post-raise_if, Post-bind, Post-imp, Post-and,
  transaction_ends,
}
use z_float_2_main.Ledger.Tables.{LedgerDb, JournalEntry}
use z_float_2_main.Ledger.Journal.{
  EntryLine, PostJournalInput, reduce, entry_row, with_entry, insert_entries, post_journal,
}

-- The sum of one side of the entries of a journal.
unfoldable pub side_of : (JournalEntry → ℤ) → ℕ → List JournalEntry → ℤ
side_of f j [] = pos 0
side_of f j (e ∷ es) = (if j == e.journal_id then f e else pos 0) +ℤ side_of f j es

abbrev pub debits : ℕ → List JournalEntry → ℤ
debits = side_of (λ e. e.debit_minor)

abbrev pub credits : ℕ → List JournalEntry → ℤ
credits = side_of (λ e. e.credit_minor)

abbrev pub AreBalanced : List JournalEntry → Type 0
AreBalanced es = (j : ℕ) → debits j es ≡ credits j es

abbrev pub HasBalancedBooks : LedgerDb → Type 0
HasBalancedBooks s = AreBalanced s.journal_entries

reduce-add :
    {A : Type 0} (f : A → ℤ) (a b : ℤ) (es : List A) → reduce f (a +ℤ b) es ≡ a +ℤ reduce f b es
unfolding reduce
reduce-add f a b [] = refl
reduce-add f a b (e ∷ es) =
    let regroup : a +ℤ b +ℤ f e ≡ a +ℤ (b +ℤ f e) = omega int_laws in
    rw regroup (reduce-add f a (b +ℤ f e) es)

reduce-cons :
    {A : Type 0} (f : A → ℤ) (e : A) (es : List A)
    → reduce f (pos 0) (e ∷ es) ≡ f e +ℤ reduce f (pos 0) es
unfolding reduce
reduce-cons f e es =
    let swap : pos 0 +ℤ f e ≡ f e +ℤ pos 0 = omega int_laws in
    rw swap (reduce-add f (f e) (pos 0) es)

abbrev if_same : ℕ → ℕ → ℤ → ℤ
if_same k j a = if k == j then a else pos 0

add_nothing : (k j : ℕ) (a : ℤ) → a ≡ a +ℤ if_same k j (pos 0)
add_nothing k j a = ground (arith, +ℤ-zero a)

add_step : (k j : ℕ) (v a b : ℤ) → if_same k j v +ℤ a +ℤ if_same k j b ≡ a +ℤ if_same k j (v +ℤ b)
add_step k j v a b = elim (Bool-cases (k == j)) [
  | inl same ↦ rw same (omega int_laws)
  | inr other ↦ rw other (omega int_laws)
]

module _ (f : JournalEntry → ℤ) (j : ℕ) where
  abbrev line_sum : List EntryLine → ℤ
  line_sum es = reduce (λ e. f (entry_row j e)) (pos 0) es

  abbrev Adds : List EntryLine → LedgerDb → LedgerDb → Type 0
  Adds es s t =
      (k : ℕ)
      → side_of f k t.journal_entries ≡ side_of f k s.journal_entries +ℤ if_same k j (line_sum es)

  -- The loop over the entries adds what they come to, to its journal alone.
  insert_entries-Adds :
      (es : List EntryLine) (s : LedgerDb) → Post (λ _ t. Adds es s t) (insert_entries j es) s
  unfolding insert_entries reduce side_of
  insert_entries-Adds [] s = Post-pure tt s (λ k. add_nothing k j _)
  insert_entries-Adds (e ∷ es) s = Post-bind _ _ s (
      Post-raise_if _ _ s λ _. Post-bind _ _ s (
        Post-raise_if _ _ s λ _. Post-bind _ _ s (
          Post-modify _ s (
            Post-imp _ _ (insert_entries-Adds es (with_entry j e s)) λ _ t h k.
              rw (h k, reduce-cons (λ e. f (entry_row j e)) e es) (add_step k j _ _ _)))))

eq_of_eqb : (a b : ℤ) → not (eqb_ℤ a b) ≡ false → a ≡ b
eq_of_eqb a b h = eq_of_parts a b (ground arith)

-- Whatever its input, `postJournal` leaves every journal in balance.
pub post_journal-HasBalancedBooks : (i : PostJournalInput) → Keeps HasBalancedBooks (post_journal i)
unfolding post_journal
post_journal-HasBalancedBooks i = record {
  at = λ s h. transaction_ends HasBalancedBooks _ s h (
      Post-bind _ _ s (
        Post-raise_if _ _ s λ same. Post-bind _ _ s (
          Post-raise_if _ _ s λ _. Post-bind _ _ s (
            Post-gets _ s (
              Post-bind _ _ s (
                Post-modify _ s (
                  Post-bind _ _ _ (
                    Post-imp _ _
                      (Post-and _ _ _ _
                        (insert_entries-Adds (λ e. e.debit_minor) s.next_id i.entries _)
                        (insert_entries-Adds (λ e. e.credit_minor) s.next_id i.entries _))
                      λ _ t sums. Post-bind _ _ t (
                        Post-modify _ t (
                          Post-pure _ _ λ k.
                            sums.0 k
                            ∙ ap₂ (λ x y. x +ℤ if_same k s.next_id y) (h k) (eq_of_eqb _ _ same)
                            ∙ sym (sums.1 k)))))))))));
}

-- Where the debits of every journal equal its credits, they do so after `postJournal`, whatever its
-- entries are: unbalanced, of an unknown account, or well formed.
pub post_journal_balanced :
    (i : PostJournalInput) (s : LedgerDb)
    → HasBalancedBooks s
    → HasBalancedBooks (post_journal i s).1
post_journal_balanced i s h = (post_journal-HasBalancedBooks i).at s h
