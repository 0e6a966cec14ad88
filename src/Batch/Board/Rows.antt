-- ===== src/Batch/Board/Rows.antt =====
-- Boards, and the boards that tables of rows show: a table whose ids ascend, under
-- `UPDATE ... WHERE id = ? AND status = ?`.
use servicecheck.Base.{
  ℕ, suc, String, ◌≡◌, refl, ◌∙◌, inl, inr, Bool, true, false, ◌&&◌, Option, none, some, List, [],
  ◌∷◌, arith, ◌==◌, if◌then◌else◌, Bool-cases, find, update, count, Ascends, count_below,
  map_option,
}
use servicecheck.Batch.Models.{BatchFileStatus, same_status}

pub record Entry : Type 0 where
  pub batch : String
  pub status : BatchFileStatus

-- The entries by id.
abbrev pub Board : Type 0
Board = ℕ → Option Entry

abbrev pub is_at : BatchFileStatus → Option Entry → Bool
is_at s none = false
is_at s (some e) = same_status e.status s

abbrev pub map_entry : BatchFileStatus → Entry → Entry
map_entry t e = record e { status = t }

abbrev pub set_at : ℕ → BatchFileStatus → Board → Board
set_at n t b m = if m == n then map_option (map_entry t) (b m) else b m

abbrev pub one_if : Bool → ℕ
one_if true = 1
one_if false = 0

module _ {A : Type 0} (id : A → ℕ) (entry : A → Entry) where
  abbrev pub entry_of : Option A → Option Entry
  entry_of none = none
  entry_of (some x) = some (entry x)

  abbrev pub at_id : ℕ → A → Bool
  at_id n x = id x == n

  abbrev pub view_of : List A → Board
  view_of xs n = entry_of (find (at_id n) xs)

  abbrev pub at_status : ℕ → BatchFileStatus → A → Bool
  at_status n s x = id x == n && same_status (entry x).status s

  -- The row count of an update is one exactly when the board has the entry in that status.
  pub count_at :
      (n : ℕ) (s : BatchFileStatus) (lo hi : ℕ) (xs : List A)
      → Ascends id lo hi xs
      → count (at_status n s) xs ≡ one_if (is_at s (view_of xs n))
  count_at n s lo hi [] a = refl
  count_at n s lo hi (x ∷ xs) a = elim (Bool-cases (id x == n)) [
    | inl e ↦
        let rest =
          count_below id n (at_status n s) (λ y h. ground arith) (suc (id x)) hi xs (ground arith)
            a.1 in
        ground (arith, rest, e)
    | inr e ↦ ground (arith, count_at n s (suc (id x)) hi xs a.1, e)
  ]

  -- An update changes the entries, where it keeps the ids.
  pub view_of-update :
      (p : A → Bool) (f : A → A) (g : ℕ → Entry → Entry)
      → ((x : A) → id (f x) ≡ id x)
      → ((x : A) → (if p x then entry (f x) else entry x) ≡ g (id x) (entry x))
      → (xs : List A) (m : ℕ) → view_of (update p f xs) m ≡ map_option (g m) (view_of xs m)
  view_of-update p f g keep h [] m = refl
  view_of-update p f g keep h (x ∷ xs) m = elim (Bool-cases (p x)) [
    | inl e ↦ elim (Bool-cases (id x == m)) [
      | inl i ↦ ground (arith, keep x, h x)
      | inr i ↦ ground (arith, keep x, view_of-update p f g keep h xs m)
    ]
    | inr e ↦ elim (Bool-cases (id x == m)) [
      | inl i ↦ ground (arith, h x)
      | inr i ↦ ground (arith, view_of-update p f g keep h xs m)
    ]
  ]

  abbrev set_entry : ℕ → BatchFileStatus → BatchFileStatus → ℕ → Entry → Entry
  set_entry n s t m e = if m == n && same_status e.status s then map_entry t e else e

  abbrev maybe_set : ℕ → BatchFileStatus → BatchFileStatus → ℕ → Option Entry → Option Entry
  maybe_set n s t m o = map_option (set_entry n s t m) o

  maybe_set-at :
      (n : ℕ) (s t : BatchFileStatus) (o : Option Entry)
      → is_at s o ≡ true
      → maybe_set n s t n o ≡ map_option (map_entry t) o
  maybe_set-at n s t none h = refl
  maybe_set-at n s t (some e) h = ground arith

  maybe_set-off :
      (n : ℕ) (s t : BatchFileStatus) (m : ℕ) (o : Option Entry)
      → m == n ≡ false
      → maybe_set n s t m o ≡ o
  maybe_set-off n s t m none h = refl
  maybe_set-off n s t m (some e) h = ground arith

  set_entry-at :
      (n : ℕ) (s t : BatchFileStatus) (b : Board)
      → is_at s (b n) ≡ true
      → (m : ℕ) → maybe_set n s t m (b m) ≡ set_at n t b m
  set_entry-at n s t b h m = elim (Bool-cases (m == n)) [
    | inl e ↦ let i : m ≡ n = ground arith in rw i (maybe_set-at n s t (b n) h ∙ ground arith)
    | inr e ↦ rw e (maybe_set-off n s t m (b m) e)
  ]

  -- An update of the row of an id in a status sets its entry, where the board has it in that status.
  pub view_of-set :
      (n : ℕ) (s t : BatchFileStatus) (f : A → A)
      → ((x : A) → id (f x) ≡ id x)
      → ((x : A) → entry (f x) ≡ map_entry t (entry x))
      → (xs : List A) → is_at s (view_of xs n) ≡ true
      → (m : ℕ) → view_of (update (at_status n s) f xs) m ≡ set_at n t (view_of xs) m
  view_of-set n s t f keep sets xs h m =
      view_of-update (at_status n s) f (set_entry n s t) keep (λ x. ground (arith, sets x)) xs m
      ∙ set_entry-at n s t (view_of xs) h m
