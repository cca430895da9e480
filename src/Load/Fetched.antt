-- ===== src/Load/Fetched.antt =====
-- What a fetch holds: the buffer where it succeeded, and nothing where it failed.
use lk_modloader.Base.{ℕ, ◌≡◌, ◌≢◌, refl, ◌∙◌, inr, List, Option, none, some, true, false}
use lk_modloader.Status.{Result}
use lk_modloader.Outcome.{Outcome, done, fail, fault, out_of_fuel}
use lk_modloader.Action.{Action}
use lk_modloader.Action.Triple.{
  Holds, After, Holds-pure, Holds-raise, Holds-if, Holds-bind, Holds-on_error, Holds-modify, Keeps,
  Keeps-Maintains, Keeps-gets, Keeps-guard, Keeps-modify, Keeps-pure,
}
use lk_modloader.Elf.{Name}
use lk_modloader.Kernel.{Kernel}
use lk_modloader.Kernel.Resources.{block, file, device, Held, with_held, Agrees, ResourceLaws}
use lk_modloader.Kernel.Held.{gain_lose, gain_gain_lose, Gains-over}
use lk_modloader.World.{World, on_os, call_service, ask, with_os}
use lk_modloader.Fetch.{
  mount_device, v9p_ensure_mounted, read_file, close_after, fetch_file_path, fetch_path, fetch,
  uri_path,
}
use lk_modloader.Load.Balance.{
  Has, HasMore, take-Holds, allocate-Holds, guard_null-Holds, free_heap-HasBlock,
}

module _ (k : Kernel) (l : ResourceLaws k) where
  -- A service that hands nothing out.
  call-Keeps :
      {A : Type 0} (f : k.Os → Result A × k.Os)
      → ((os : k.Os) → Agrees (l.held (f os).1) (l.held os))
      → (h : Held) → Keeps (Has k l h) (call_service k f)
  unfolding call_service on_os
  call-Keeps f same_held h = Keeps-Maintains _ (record { run = λ w p r. same_held w.os r ∙ p r })

  -- A buffer that is not null.
  abbrev pub HasBuffer : Held → ℕ × List ℕ → World k → Type 0
  HasBuffer h f w = (f.0 ≢ 0) × HasMore k l h (block f.0) w

  -- What `bio_open` has handed out.
  abbrev Opened : Held → Option ℕ → World k → Type 0
  Opened h none w = Has k l h w
  Opened h (some d) w = HasMore k l h (device d) w

  mount_device-Holds :
      (h : Held) (bdev : Option ℕ)
      → Holds (Opened h bdev) (mount_device k bdev) (λ u w. Has k l h w) (Has k l h)
  unfolding mount_device
  mount_device-Holds h none = Holds-raise _ (λ w p. p)
  mount_device-Holds h (some bdev) =
      Holds-bind {R = λ u w. Has k l h w} _ _
        (Holds-modify _ (λ w p.
          gain_lose (l.held (k.bio_close w.os bdev)) (l.held w.os) h (device bdev) p.0 p.1
            (l.bio_close_lem w.os bdev)))
        (λ u.
          Holds-bind _ _ (call-Keeps _ (λ os. l.fs_mount_same os _ _ _) h)
            (λ u'. Keeps-modify _ (λ w p. p)))

  bio_open-Holds :
      (h : Held) (name : Name)
      → Holds (Has k l h) (ask k (λ os. k.bio_open os name)) (Opened h) (Has k l h)
  unfolding ask on_os
  bio_open-Holds h name = record {
    run = λ w p. after w p (k.bio_open w.os name).0 (k.bio_open w.os name).1 refl;
  }
    where
      after :
          (w : World k)
          → Has k l h w
          → (d : Option ℕ) (os' : k.Os) → k.bio_open w.os name ≡ (d, os')
          → Opened h d (record w { os = os' })
      after w p none os' e = λ r. l.bio_open_none w.os name e r ∙ p r
      after w p (some d) os' e =
          Gains-over (l.held os') (l.held w.os) h (device d) p (l.bio_open_some w.os name d e)

  v9p_ensure_mounted-Keeps : (h : Held) → Keeps (Has k l h) (v9p_ensure_mounted k)
  unfolding v9p_ensure_mounted
  v9p_ensure_mounted-Keeps h = Holds-bind _ _ (Keeps-gets _) (λ mounted.
      Holds-if _ _ _ (Keeps-pure _) (Holds-bind _ _ (bio_open-Holds h _) (mount_device-Holds h)))

  read_file-Holds :
      (fh : ℕ) (h : Held) → Holds (Has k l h) (read_file k fh) (HasBuffer h) (Has k l h)
  unfolding read_file
  read_file-Holds fh h = Holds-bind _ _ (call-Keeps _ (λ os. l.fs_stat_same os fh) h) (λ st.
      Holds-bind _ _ (Keeps-guard _ _) (λ u. Holds-bind _ _ (Keeps-guard _ _) (λ u1.
        Holds-bind _ _
          (allocate-Holds k l _ (λ os. l.malloc_given os st.size) (λ os. l.malloc_null os st.size)
            h)
          (λ buf. Holds-bind _ _ (guard_null-Holds k l h buf _) (λ u2.
            Holds-on_error _ _ (λ w b. free_heap-HasBlock k l h buf w (inr b))
              (Holds-bind _ _ (read_keeps h buf st.size)
                (λ bytes. Holds-bind _ _ (Keeps-guard _ _) (λ u3. Holds-pure _ (λ w b. b)))))))))
    where
      read_keeps :
          (h : Held) (buf size : ℕ)
          → Keeps
              (λ w. (buf ≢ 0) × HasMore k l h (block buf) w)
              (call_service k (λ os. k.fs_read_file os fh 0 size))
      read_keeps h buf size = Keeps-Maintains _ (
          unfold call_service on_os in
          record { run = λ w p. (p.0, (p.1.0, λ r. l.fs_read_same w.os fh 0 size r ∙ p.1.1 r)) })

  close_after-Holds :
      (fh : ℕ) (h : Held) (m : Action (World k) (ℕ × List ℕ))
      → Holds
          (Has k l (with_held h (file fh) true))
          m
          (HasBuffer (with_held h (file fh) true))
          (Has k l (with_held h (file fh) true))
      → Holds (HasMore k l h (file fh)) (close_after k fh m) (HasBuffer h) (Has k l h)
  unfolding close_after
  close_after-Holds fh h m km = record { run = λ w p. after p.0 (m w) (km.run w p.1) }
    where
      after :
          h (file fh) ≡ false
          → (r : Outcome (ℕ × List ℕ) × World k)
          → After (HasBuffer (with_held h (file fh) true)) (Has k l (with_held h (file fh) true)) r
          → After (HasBuffer h) (Has k l h) (r.0, with_os k (λ os. k.fs_close_file os fh) r.1)
      after fresh (done f, w) (given, more) = (
        given,
        gain_gain_lose _ (l.held w.os) h (file fh) (block f.0) fresh more.0 more.1
            (l.fs_close_lem w.os fh),
      )
      after fresh (fail e, w) has =
          gain_lose _ (l.held w.os) h (file fh) fresh has (l.fs_close_lem w.os fh)
      after fresh (fault, w) has = tt
      after fresh (out_of_fuel, w) has = tt

  fetch_path-Holds :
      (h : Held) (path : Option Name)
      → Holds (Has k l h) (fetch_path k path) (HasBuffer h) (Has k l h)
  unfolding fetch_path fetch_file_path
  fetch_path-Holds h none = Holds-raise _ (λ w p. p)
  fetch_path-Holds h (some path) = Holds-bind _ _ (v9p_ensure_mounted-Keeps h) (λ u.
      Holds-bind _ _
        (take-Holds k l _ file (λ os x os' e. l.fs_open_ok os path x e)
          (λ os x os' e. l.fs_open_err os path x e) h)
        (λ fh. close_after-Holds fh h _ (read_file-Holds fh _)))

  pub fetch-Holds :
      (h : Held) (uri : Option Name) → Holds (Has k l h) (fetch k uri) (HasBuffer h) (Has k l h)
  unfolding fetch
  fetch-Holds h none = Holds-raise _ (λ w p. p)
  fetch-Holds h (some uri) = fetch_path-Holds h (uri_path uri)
