-- ===== src/Fetch/Bounds.antt =====
-- What a fetch that succeeds has read, and from where.
use lk_modloader.Base.{
  ℕ, ◌≤◌, ◌<◌, ◌≡◌, ◌≢◌, refl, List, Option, none, some, Bool, true, false, arith, length,
}
use lk_modloader.Outcome.{done}
use lk_modloader.Action.{Action, raise, guard, pure}
use lk_modloader.Action.Ends.{Ensures, Ensures-bind, Ensures-any, Ensures-never, Ensures-on_error}
use lk_modloader.Elf.{Name}
use lk_modloader.Kernel.{Kernel}
use lk_modloader.World.{World}
use lk_modloader.Fetch.{
  read_file, close_after, fetch_file_path, fetch_path, fetch, uri_path, max_fetch_size,
}

-- A buffer that is not null, with bytes in it, and not too many.
abbrev pub IsFetched : ℕ × List ℕ → Type 0
IsFetched f = (f.0 ≢ 0) × (0 < length f.1) × (length f.1 ≤ max_fetch_size)

abbrev Any : {S : Type 0} → S → Type 0
Any s = Unit {0}

-- A guard that was passed.
Ensures-guard :
    {S : Type 0} (b : Bool) (e : lk_modloader.Status.Error)
    → Ensures (Any {S = S}) (guard b e) (λ u s. b ≡ false)
unfolding guard
Ensures-guard true e = Ensures-never _ (λ s. refl)
Ensures-guard false e = record { run = λ s p a s' h. refl }

Ensures-fact :
    {S A : Type 0} {X : Type 0} {m : Action S A} {Q : A → S → Type 0}
    → (X → Ensures (Any {S = S}) m Q)
    → Ensures (λ s. X) m Q
Ensures-fact k = record { run = λ s x a s' h. (k x).run s tt a s' h }

module _ (k : Kernel) where
  read_file-IsFetched : (fh : ℕ) → Ensures (Any {S = World k}) (read_file k fh) (λ f w. IsFetched f)
  unfolding read_file pure
  read_file-IsFetched fh = Ensures-bind _ _ (Ensures-any _) (λ st.
      Ensures-bind _ _ (Ensures-any _) (λ u. Ensures-bind _ _ (Ensures-guard _ _) (λ u'.
        Ensures-fact (λ size. Ensures-bind _ _ (Ensures-any _) (λ buf.
          Ensures-bind _ _ (Ensures-guard _ _) (λ u''. Ensures-fact (λ given. Ensures-on_error _ _ (
            Ensures-bind _ _ (Ensures-any _) (λ bytes. Ensures-bind _ _ (Ensures-guard _ _) (λ v.
              Ensures-fact (λ all. record {
                run = λ s p f s' h. ground (arith, h, size, given, all);
              })))))))))))

  close_after-Ensures :
      {A : Type 0} {Q : A → Type 0} (fh : ℕ) (m : Action (World k) A)
      → Ensures (Any {S = World k}) m (λ a w. Q a)
      → Ensures (Any {S = World k}) (close_after k fh m) (λ a w. Q a)
  unfolding close_after
  close_after-Ensures fh m km = record {
    run = λ w p a w' h. km.run w p a (m w).1 (λ i. ((h i).0, (m w).1));
  }

  fetch_path-IsFetched :
      (path : Option Name) → Ensures (Any {S = World k}) (fetch_path k path) (λ f w. IsFetched f)
  unfolding fetch_path fetch_file_path
  fetch_path-IsFetched none = Ensures-never _ (λ s. unfold raise in refl)
  fetch_path-IsFetched (some path) = Ensures-bind _ _ (Ensures-any _) (λ u.
      Ensures-bind _ _ (Ensures-any _) (λ fh. close_after-Ensures fh _ (read_file-IsFetched fh)))

  -- When a fetch of a URI succeeds with a buffer, its address is not null, and it holds at least
  -- one byte and at most 256 KB.
  pub fetch_done :
      (uri : Name) (w w' : World k) (f : ℕ × List ℕ)
      → fetch k (some uri) w ≡ (done f, w')
      → IsFetched f
  unfolding fetch
  fetch_done uri w w' f h = (fetch_path-IsFetched (uri_path uri)).run w tt f w' h
