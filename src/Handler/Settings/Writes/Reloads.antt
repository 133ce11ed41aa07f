-- ===== src/Handler/Settings/Writes/Reloads.antt =====
-- A reload of src/handler.c is whole or has no effect on the handler.
use klunok.Prelude.{
  true, false, Option, none, some, ◌≡◌, refl, ◌∙◌, ◌⊎◌, inl, inr, Bool-cases, Text, text_eq, arith,
  ℕ, ap, subst,
}
use klunok.Trace.{Host, ok, try, finally_rethrow_static}
use klunok.System.{System}
use klunok.Linq.{Linq, redebounce}
use klunok.Linq.Load.{load_linq}
use klunok.Journal.{Journal, open_journal}
use klunok.Messages.{
  handler_config_cannot_reload, handler_journal_cannot_open, handler_linq_cannot_reload,
}
use klunok.Trace.Rethrown.{ok-rethrow_context, ok-finally_rethrow, ok-rethrown, ok-try, rethrown}
use klunok.Handler.Settings.{Settings, Handler, journal_context}
use klunok.Handler.Settings.Writes.{
  commit, reload, reload_loaded, linq_or, reload_linq, reload_journal, end_config_load,
}

module _ (sys : System)
    (load_config : Option Text → sys.State → Host → Option Settings × sys.State × Host) where
  -- What `load_linq` gives for a configuration.
  abbrev pub loaded_linq : Settings → sys.State → Host → Option Linq × sys.State × Host
  loaded_linq config s k =
      load_linq sys config.queue_path config.debounce_seconds config.queue_size_guess
        config.path_length_guess s k

  -- What `open_journal` gives for a configuration.
  abbrev pub opened_journal : Settings → sys.State → Host → Option Journal × sys.State × Host
  opened_journal config s k =
      open_journal sys config.journal_path config.journal_timestamp_pattern s k

  -- The queue that the handler has behind the reload, and the state: it is the old one if the path
  -- is the same, and what `load_linq` gave, without an error, if the path is another one.
  pub data Queued (old_path : Text) (old : Linq) (config : Settings) (s : sys.State) (new : Linq)
      (s' : sys.State) : Type 0 where
    kept :
        text_eq old_path config.queue_path ≡ true
        → new ≡ old
        → s' ≡ s
        → Queued old_path old config s new s'
    taken :
        text_eq old_path config.queue_path ≡ false
        → (k : Host) → ok k ≡ true
        → ok (loaded_linq config s k).2 ≡ true
        → new ≡ linq_or sys load_config old (loaded_linq config s k).0
        → s' ≡ (loaded_linq config s k).1
        → Queued old_path old config s new s'

  -- The configuration is what `load_config` gave, the journal what `open_journal` gave for it
  -- without an error, the queue as above; the rest of the handler is kept.
  pub record Renewed (old : Handler) (s : sys.State) (h : Host) (new : Handler) : Type 0 where
    pub config : Settings
    pub config_is : (load_config old.config_path s (try h)).0 ≡ some config
    pub queue : Linq
    pub behind : sys.State
    pub queued :
        Queued old.config.queue_path old.linq config
          (load_config old.config_path s (try h)).1
          queue
          behind
    pub host : Host
    pub fine : ok host ≡ true
    pub opened : ok (opened_journal config behind host).2 ≡ true
    pub handler_is : new ≡ record old {
      config = config;
      journal = (opened_journal config behind host).0;
      linq = redebounce config.debounce_seconds queue;
    }

  abbrev pub Outcome : Handler → sys.State → Host → Handler × sys.State × Host → Type 0
  Outcome old s h r = ((ok r.2 ≡ true) × Renewed old s h r.0) ⊎ ((ok r.2 ≡ false) × (r.0 ≡ old))

  still_bad : (path : Option Text) (h : Host) → ok h ≡ false → ok (journal_context path h) ≡ false
  still_bad none h bad = bad
  still_bad (some path) h bad = ok-rethrow_context path h bad

  was_fine :
      (m : ℕ) (path : Option Text) (h : Host)
      → ok (finally_rethrow_static m (journal_context path h)) ≡ true
      → ok h ≡ true
  was_fine m path h e = elim (Bool-cases (ok h)) [
    | inl fine ↦ fine
    | inr bad ↦
        absurd
          (ground (arith, e, ok-finally_rethrow m (journal_context path h) (still_bad path h bad)))
  ]

  linq_was_fine : (m : ℕ) (path : Text) (h : Host) → ok (rethrown m path h) ≡ true → ok h ≡ true
  linq_was_fine m path h e = elim (Bool-cases (ok h)) [
    | inl fine ↦ fine
    | inr bad ↦ absurd (ground (arith, e, ok-rethrown m path h bad))
  ]

  reload_linq-Queued :
      (old config : Settings) (linq : Linq) (s : sys.State) (h : Host)
      → ok h ≡ true
      → ok (reload_linq sys load_config old config s h).2 ≡ true
      → Queued old.queue_path linq config s
          (linq_or sys load_config linq (reload_linq sys load_config old config s h).0)
          (reload_linq sys load_config old config s h).1
  reload_linq-Queued old config linq s h fine =
      elim (Bool-cases (text_eq old.queue_path config.queue_path)) [
        | inl same ↦ rw (fine, same) (λ e. kept same refl refl)
        | inr new ↦
            rw (fine, new)
              (λ e.
                taken new (try h) (ok-try h ∙ fine)
                  (linq_was_fine handler_linq_cannot_reload config.queue_path
                    (loaded_linq config s (try h)).2 e)
                  refl refl)
      ]

  reload_linq-failed :
      (old config : Settings) (s : sys.State) (h : Host)
      → ok h ≡ false
      → ok (reload_linq sys load_config old config s h).2 ≡ false
  reload_linq-failed old config s h bad = rw bad bad

  -- A journal was opened for the configuration.
  record Noted (config : Settings) (s : sys.State) (h : Host) (journal : Option Journal)
      : Type 0 where
    before : ok h ≡ true
    host : Host
    fine : ok host ≡ true
    opened : ok (opened_journal config s host).2 ≡ true
    journal_is : journal ≡ (opened_journal config s host).0

  reload_journal-Noted :
      (config : Settings) (s : sys.State) (h : Host)
      → ok (reload_journal sys load_config config s h).2 ≡ true
      → Noted config s h (reload_journal sys load_config config s h).0
  reload_journal-Noted config s h = elim (Bool-cases (ok h)) [
    | inr bad ↦ rw bad (λ e. absurd (ground (arith, bad, e)))
    | inl fine ↦ rw fine (λ e. record {
      before = fine;
      host = try h;
      fine = ok-try h ∙ fine;
      opened =
          was_fine handler_journal_cannot_open config.journal_path
            (opened_journal config s (try h)).2 e;
      journal_is = refl;
    })
  ]

  commit-Outcome :
      (config : Settings) (linq : Option Linq) (r : Option Journal × sys.State × Host)
      (old : Handler) (s : sys.State) (h : Host)
      → (ok r.2 ≡ true
          → Renewed old s h (record old {
            config = config;
            journal = r.0;
            linq = redebounce config.debounce_seconds (linq_or sys load_config old.linq linq);
          }))
      → Outcome old s h (commit sys load_config config linq r old)
  unfolding commit
  commit-Outcome config linq (journal, s', h') old s h renewed = elim (Bool-cases (ok h')) [
    | inr bad ↦ rw (bad, bad) (inr (refl, refl))
    | inl fine ↦ rw (fine, fine) (inl (refl, renewed fine))
  ]

  module _ (old : Handler) (s : sys.State) (h : Host) (config : Settings)
      (given : (load_config old.config_path s (try h)).0 ≡ some config) (h' : Host) where
    abbrev middle : sys.State
    middle = (load_config old.config_path s (try h)).1

    abbrev loaded : Option Linq × sys.State × Host
    loaded = reload_linq sys load_config old.config config middle h'

    -- What both loads gave makes up the new handler.
    loaded-Renewed :
        ok loaded.2 ≡ true
        → Noted config loaded.1 loaded.2 (reload_journal sys load_config config loaded.1 loaded.2).0
        → Renewed old s h (record old {
          config = config;
          journal = (reload_journal sys load_config config loaded.1 loaded.2).0;
          linq = redebounce config.debounce_seconds (linq_or sys load_config old.linq loaded.0);
        })
    loaded-Renewed fine n = elim (Bool-cases (ok h')) [
      | inr bad ↦ absurd (ground (arith, fine, reload_linq-failed old.config config middle h' bad))
      | inl before ↦ record {
        config = config;
        config_is = given;
        queue = linq_or sys load_config old.linq loaded.0;
        behind = loaded.1;
        queued = reload_linq-Queued old.config config old.linq middle h' before fine;
        host = n.host;
        fine = n.fine;
        opened = n.opened;
        handler_is =
            ap
              (λ (j : Option Journal). record old {
                config = config;
                journal = j;
                linq =
                    redebounce config.debounce_seconds (linq_or sys load_config old.linq loaded.0);
              })
              n.journal_is;
      }
    ]

    committed-Outcome : Outcome old s h (
        commit sys load_config config loaded.0
          (reload_journal sys load_config config loaded.1 loaded.2)
          old)
    committed-Outcome =
        commit-Outcome config loaded.0 (reload_journal sys load_config config loaded.1 loaded.2) old
          s h
          (λ e.
            let n = reload_journal-Noted config loaded.1 loaded.2 e in loaded-Renewed n.before n)

  reload_loaded-Outcome :
      (old : Handler) (s : sys.State) (h : Host) (r : Option Settings × sys.State × Host)
      → load_config old.config_path s (try h) ≡ r
      → (r.0 ≡ none → ok r.2 ≡ false)
      → Outcome old s h (
          reload_loaded sys load_config
            (end_config_load sys load_config handler_config_cannot_reload old.config_path r)
            old)
  reload_loaded-Outcome old s h (none, s1, h1) e refuses = inr (
    ok-finally_rethrow handler_config_cannot_reload (journal_context old.config_path h1)
        (still_bad old.config_path h1 (refuses refl)),
    refl,
  )
  reload_loaded-Outcome old s h (some config, s1, h1) e refuses =
      let host =
        finally_rethrow_static handler_config_cannot_reload (journal_context old.config_path h1) in
      subst
        (λ (x : sys.State).
          Outcome old s h (reload_loaded sys load_config (some config, x, host) old))
        (ap (λ (r : Option Settings × sys.State × Host). r.1) e)
        (committed-Outcome old s h config (ap (λ (r : Option Settings × sys.State × Host). r.0) e)
          host)

  -- A reload ends without an error, and then the configuration is the one that `load_config` gave,
  -- the journal the one that `open_journal` gave for it, and the queue the one that `load_linq`
  -- gave for it if the path is another one; or it ends with an error and leaves the handler as it
  -- was, whichever part failed. That is so if `load_config` ends with an error where it gives no
  -- configuration.
  pub reload-Outcome :
      ((path : Option Text) (s : sys.State) (h : Host)
        → (load_config path s h).0 ≡ none
        → ok (load_config path s h).2 ≡ false)
      → (old : Handler) (s : sys.State) (h : Host)
      → Outcome old s h (reload sys load_config old s h)
  unfolding reload
  reload-Outcome refuses old s h =
      reload_loaded-Outcome old s h (load_config old.config_path s (try h)) refl
        (refuses old.config_path s (try h))
