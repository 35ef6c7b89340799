-- ===== src/Config/Files/Laws.antt =====
-- What loading and changing the configuration leave in its file.
use finch.Prelude.{
  String, Bool, true, false, ◌||◌, Option, none, some, ◌≡◌, refl, arith, ◌==◌, ==_iff, Result, ok,
  err, panicked, context, ◌>>=◌, ap, ◌&&◌, Bool-cases, ◌⊎◌, inl, inr, context-eq_ok,
}
use finch.Prelude.Int.{int_eq, int_eq→eq}
use finch.Config.Types.{Finch, VmConfigOpts}
use finch.Config.System.{System}
use finch.Config.Defaults.{apply_defaults}
use finch.Config.Defaults.Laws.{IsComplete, apply_defaults-IsComplete}
use finch.Config.Validate.{validate}
use finch.Config.Files.{
  save_loaded, load_read, write_if, compare_memory, Store, and_then, write_config,
  load_finch_config, modify_finch_config, load, modify, changes, newer, updated, write_updated,
  is_none, load_text,
}
use finch.Config.Files.Chains.{and_then-eq_ok, in_context-eq_ok, and_then-inv}

-- The file system keeps what is written, and the codec reads what it has printed.
pub record IsStore (st : Store) : Type 0 where
  pub read-write :
      (path text : String) (w w' : st.World)
      → st.write_file path text w ≡ (ok tt, w')
      → st.read_file path w' ≡ ok text
  pub unmarshal-marshal :
      (cfg : Finch) (text : String) → st.marshal cfg ≡ ok text → st.unmarshal text ≡ ok cfg

-- A flag that changes nothing is missing or repeats what is there.
newer_lem :
    {A : Type 0} (same : A → A → Bool)
    → ((a b : A) → same a b ≡ true → a ≡ b)
    → (new old : Option A) → changes same new old ≡ ok false
    → newer new old ≡ old
unfolding changes newer
newer_lem same sound none old h = refl
newer_lem same sound (some a) none h = cc
newer_lem same sound (some a) (some b) h = ap some (sound a b (ground arith))

updated-eq :
    (opts : VmConfigOpts) (cfg : Finch)
    → newer opts.cpus cfg.cpus ≡ cfg.cpus
    → newer opts.memory cfg.memory ≡ cfg.memory
    → updated opts cfg ≡ cfg
unfolding updated
updated-eq opts cfg e e' = λ i. record cfg { cpus = e i; memory = e' i }

module _ (st : Store) (law : IsStore st) where
  -- A configuration that was written without an error is in the file.
  unmarshal-write_config :
      (cfg : Finch) (path : String) (w w' : st.World)
      → write_config st cfg path w ≡ (ok tt, w')
      → (text : String) × (st.read_file path w' ≡ ok text) × (st.unmarshal text ≡ ok cfg)
  unfolding write_config
  unmarshal-write_config cfg path w w' h =
      let (text, m, h') = and_then-eq_ok st _ w _ tt w' h in
      (
        text,
        law.read-write path text w w' (in_context-eq_ok st _ _ tt w' h'),
        law.unmarshal-marshal cfg text (context-eq_ok _ _ text m),
      )

  module _ (sys : System) where
    -- What was written and is valid is loaded again.
    load_finch_config-write_config :
        (cfg : Finch) (path : String) (w w' : st.World)
        → write_config st cfg path w ≡ (ok tt, w')
        → validate sys cfg ≡ ok tt
        → load_finch_config st sys path w' ≡ ok cfg
    unfolding load_finch_config
    load_finch_config-write_config cfg path w w' h v =
        let (text, r, u) = unmarshal-write_config cfg path w w' h in rw (r, u, v)

    write_updated_lem :
        (path : String) (cfg : Finch) (w w' : st.World) (b : Bool)
        → write_updated st sys path cfg w ≡ (ok b, w')
        → load_finch_config st sys path w' ≡ ok cfg
    unfolding write_updated
    write_updated_lem path cfg w w' b h =
        let (u, v, h') = and_then-eq_ok st _ w _ b w' h in
        let (u', w1, written, e) = and_then-inv st _ _ b w' h' in
        rw (← ap (λ (p : Result Bool × st.World). p.1) e)
          (load_finch_config-write_config cfg path w w1 written (context-eq_ok _ _ tt v))

    -- What writes reports a change.
    written_not_false :
        (path : String) (cfg : Finch) (w w' : st.World)
        → write_updated st sys path cfg w ≡ (ok false, w')
        → ⊥
    unfolding write_updated
    written_not_false path cfg w w' h =
        let (u, v, h') =
          and_then-eq_ok st (context "failed to validate config file" (validate sys cfg)) w
            (λ _ x. and_then st (write_config st cfg path x) (λ _ y. (ok true, y))) false w' h in
        let (u', w1, written, e) =
          and_then-inv st (write_config st cfg path w) (λ _ y. (ok true, y)) false w' h' in
        cc (ap (λ (p : Result Bool × st.World). p.0) e)

    -- Where `vm settings` reports a change, the file has the configuration that it had before, but
    -- for the flags that were given, and it is valid.
    pub modify_finch_config-changed :
        (path : String) (opts : VmConfigOpts) (w w' : st.World)
        → modify_finch_config st sys path opts w ≡ (ok true, w')
        → (cfg : Finch) × (load_finch_config st sys path w ≡ ok cfg)
          × (load_finch_config st sys path w' ≡ ok (updated opts cfg))
    unfolding modify_finch_config
    modify_finch_config-changed path opts w w' h =
        let (cfg, l, h1) = and_then-eq_ok st _ w _ true w' h in
        (cfg, l, changed cfg (Bool-cases (is_none opts.cpus && is_none opts.memory)) h1)
      where
        last :
            (cfg : Finch) (w2 : st.World) (b : Bool)
            → write_if st sys path (updated opts cfg) b w2 ≡ (ok true, w')
            → load_finch_config st sys path w' ≡ ok (updated opts cfg)
        last cfg w2 true h2 = write_updated_lem path (updated opts cfg) w2 w' true h2
        last cfg w2 false h2 = cc

        changed :
            (cfg : Finch)
            → ((is_none opts.cpus && is_none opts.memory) ≡ true)
              ⊎ ((is_none opts.cpus && is_none opts.memory) ≡ false)
            → modify st sys path opts cfg w ≡ (ok true, w')
            → load_finch_config st sys path w' ≡ ok (updated opts cfg)
        changed cfg (inl e) h1 = cc (rw (e, modify) at h1)
        changed cfg (inr e) h1 =
            let (b1, k1, h2) =
              and_then-eq_ok st _ w (compare_memory st sys path opts cfg) true w'
                (rw (e, modify) at h1) in
            let (b2, k2, h3) =
              and_then-eq_ok st _ w (λ b w2. write_if st sys path (updated opts cfg) (b1 || b) w2)
                true w' h2 in
            last cfg w (b1 || b2) h3

    -- Where it reports none, nothing was written, and the flags say what the file has.
    modify_finch_config-unchanged :
        (path : String) (opts : VmConfigOpts) (w w' : st.World)
        → modify_finch_config st sys path opts w ≡ (ok false, w')
        → (w ≡ w')
          × (cfg : Finch) × (load_finch_config st sys path w ≡ ok cfg)
          × (updated opts cfg ≡ cfg)
    unfolding modify_finch_config
    modify_finch_config-unchanged path opts w w' h =
        let (cfg, l, h1) = and_then-eq_ok st _ w _ false w' h in
        let (e, u) = unchanged cfg (Bool-cases (is_none opts.cpus && is_none opts.memory)) h1 in
        (e, cfg, l, u)
      where
        last :
            (cfg : Finch) (b1 b2 : Bool)
            → changes int_eq opts.cpus cfg.cpus ≡ ok b1
            → changes ◌==◌ opts.memory cfg.memory ≡ ok b2
            → write_if st sys path (updated opts cfg) (b1 || b2) w ≡ (ok false, w')
            → (w ≡ w') × (updated opts cfg ≡ cfg)
        last cfg false false k1 k2 h3 = (
          ap (λ (p : Result Bool × st.World). p.1) h3,
          updated-eq opts cfg (newer_lem int_eq int_eq→eq _ _ k1) (newer_lem ◌==◌ ==_iff _ _ k2),
        )
        last cfg false true k1 k2 h3 = absurd (written_not_false path (updated opts cfg) w w' h3)
        last cfg true b2 k1 k2 h3 = absurd (written_not_false path (updated opts cfg) w w' h3)

        unchanged :
            (cfg : Finch)
            → ((is_none opts.cpus && is_none opts.memory) ≡ true)
              ⊎ ((is_none opts.cpus && is_none opts.memory) ≡ false)
            → modify st sys path opts cfg w ≡ (ok false, w')
            → (w ≡ w') × (updated opts cfg ≡ cfg)
        unchanged cfg (inl e) h1 = cc (rw (e, modify) at h1)
        unchanged cfg (inr e) h1 =
            let (b1, k1, h2) =
              and_then-eq_ok st _ w (compare_memory st sys path opts cfg) false w'
                (rw (e, modify) at h1) in
            let (b2, k2, h3) =
              and_then-eq_ok st _ w (λ b w2. write_if st sys path (updated opts cfg) (b1 || b) w2)
                false w' h2 in
            last cfg b1 b2 k1 k2 h3

    checked-eq_ok :
        (cfg cfg' : Finch)
        → context "failed to validate config file" (validate sys cfg >>= λ _. ok cfg) ≡ ok cfg'
        → (validate sys cfg ≡ ok tt) × (cfg ≡ cfg')
    checked-eq_ok cfg cfg' h = go (validate sys cfg) h
      where
        go :
            (r : Result (Unit {0}))
            → context "failed to validate config file" (r >>= λ _. ok cfg) ≡ ok cfg'
            → (r ≡ ok tt) × (cfg ≡ cfg')
        go (ok u) k = (refl, ground arith)
        go (err e) k = cc
        go panicked k = cc

    save_loaded_lem :
        (path : String) (read cfg : Finch) (w w' : st.World)
        → save_loaded st sys path (apply_defaults sys read) w ≡ (ok cfg, w')
        → (load_finch_config st sys path w' ≡ ok cfg) × IsComplete cfg
    unfolding save_loaded
    save_loaded_lem path read cfg w w' h =
        let (u, w1, written, h2) =
          and_then-inv st (write_config st (apply_defaults sys read) path w)
            (λ _ x. (
              context "failed to validate config file"
                  (validate sys (apply_defaults sys read) >>= λ _. ok (apply_defaults sys read)),
              x,
            ))
            cfg w' h in
        let (v, e) =
          checked-eq_ok (apply_defaults sys read) cfg
            (ap (λ (p : Result Finch × st.World). p.0) h2) in
        (
          rw (← e, ← ap (λ (p : Result Finch × st.World). p.1) h2)
              (load_finch_config-write_config (apply_defaults sys read) path w w1 written v),
          rw (← e) (apply_defaults-IsComplete sys read),
        )

    -- What `Load` returns for a file that is there is what the file holds afterwards; it is valid,
    -- and complete, so that `vm settings` reads no nil pointer from it.
    pub load-load_finch_config :
        (path text : String) (cfg : Finch) (w w' : st.World)
        → st.read_file path w ≡ ok text
        → load st sys path w ≡ (ok cfg, w')
        → (load_finch_config st sys path w' ≡ ok cfg) × IsComplete cfg
    unfolding load
    load-load_finch_config path text cfg w w' there h =
        let (read, r, h1) =
          and_then-eq_ok st (context "failed to unmarshal config file" (st.unmarshal text)) w
            (λ c x. save_loaded st sys path (apply_defaults sys c) x) cfg w'
            (rw (there, load_read, load_text) at h) in
        save_loaded_lem path read cfg w w' h1
