-- ===== src/Linq.antt =====
-- src/linq.c: the debouncing queue, a directory of numbered symbolic links. A target that is read
-- is a text, and a pointer into it is a suffix of it. `time_t` is a number: a comparison of
-- differences is written as one of sums.
pub mod Names
pub mod Entries
pub mod Queue
pub mod Push
pub mod Pop
pub mod Stripped
pub mod Rounds
pub mod Head
pub mod Load
pub mod Reload
pub mod Descriptor
use klunok.Prelude.{
  ℕ, zero, suc, ◌+◌, ◌-◌, ◌*◌, ◌%◌, [], ◌∷◌, Bool, true, false, ◌&&◌, ◌||◌, not, Option, none, some,
  Text, ◌==◌, ltb, if◌then◌else◌, length, take,
}
use klunok.Trace.{Host, ok, try, rethrow_context, finally_rethrow_static, tnull_malloc}
use klunok.Messages.{linq_invalid_entry}
use klunok.Buffer.{
  Buffer, View, size_mod, create_buffer, create_buffer_view, concat_size, concat_string, get_string,
}
use klunok.Set.{Set, add, pop, get_count}
use klunok.System.{System, Errno, Answer, tneg_do, tneg_ask}

pub record Linq : Type 0 where
  pub dirfd : ℕ
  pub debounce_seconds : ℕ
  pub length_guess : ℕ
  pub head_index : ℕ
  pub size : ℕ
  pub set : Set
  pub head_mtime : Option ℕ

-- −1 is `forever`.
pub data Pause : Type 0 where
  forever : Pause
  seconds : ℕ → Pause

-- `target` and `path` are set if the pause is 0.
pub record LinqHead : Type 0 where
  pub target : Option Text
  pub path : Option Text
  pub pause : Pause

-- The test of the loop, on what follows the first byte.
unfoldable pub is_legacy : Text → Bool
is_legacy [] = false
is_legacy (c ∷ []) = c == b'/'
is_legacy (c ∷ (d ∷ t)) = c == b'/' || (c == b'.' && d == b'/')

unfoldable pub strip_legacy_metadata : Text → Text
strip_legacy_metadata [] = []
strip_legacy_metadata (c ∷ t) =
    let rest = strip_legacy_metadata t in if is_legacy t then rest else c ∷ t

-- `*path = '/'`
abbrev pub slashed : Text → Text
slashed [] = []
slashed (c ∷ t) = b'/' ∷ t

abbrev pub text_of : Option Buffer → Text
text_of none = []
text_of (some b) = get_string b.view

-- A new buffer that something is appended to; `NULL` if it is not created.
unfoldable pub build : (Buffer → Host → Buffer × Host) → Host → Option Buffer × Host
build f h =
    let (made, h') = create_buffer h in
    elim made [ none ↦ (none, h') | some b ↦ let (b', h'') = f b h' in (some b', h'') ]

abbrev pub seconds_of : Option ℕ → ℕ
seconds_of none = 0
seconds_of (some n) = n

abbrev pub due_at : Linq → ℕ
due_at l = seconds_of l.head_mtime + l.debounce_seconds

module _ (sys : System) where
  -- The loop of `read_entry`; `max_size` doubles in each round.
  unfoldable pub read_entry_from : ℕ → Text → Linq → ℕ → sys.State → Host → Option Text × Host
  read_entry_from zero entry l max_size s h = (none, h)
  read_entry_from (suc fuel) entry l max_size s h =
      let (target, h1) = tneg_ask sys (sys.link_at l.dirfd entry) s (tnull_malloc (try h)).1 in
      let h2 = finally_rethrow_static linq_invalid_entry (rethrow_context entry h1) in
      let more = read_entry_from fuel entry l (max_size * 2 % size_mod) s h2 in
      if not (ok h2) then (none, h2) else elim target [
        | none ↦ (none, h2)
        | some t ↦ if ltb (length t) max_size then (some t, h2) else more
      ]

  -- 64 doublings pass every size.
  unfoldable pub read_entry : Text → Linq → sys.State → Host → Option Text × Host
  read_entry entry l s h =
      if not (ok h)
      then (none, h)
      else read_entry_from 64 entry l ((l.length_guess + 1) % size_mod) s h

  unfoldable pub push : Text → Linq → sys.State → Host → Linq × sys.State × Host
  push path l s h =
      if not (ok h)
      then (l, s, h)
      else let (link, h1) = build (concat_size ((l.head_index + l.size) % size_mod)) h in
        let (target, h2) = build (concat_string path) h1 in
        let (s', h3) = tneg_do sys (sys.symlinkat (text_of target) l.dirfd (text_of link)) s h2 in
        let (set', h4) = add (slashed path) l.set h3 in
        (record l { set = set'; size = (if ok h4 then l.size + 1 else l.size) }, s', h4)

  -- The counters once a link is gone.
  abbrev pub shorten : View → Linq → Linq
  shorten v l = record l {
    set = pop v l.set;
    size = l.size - 1;
    head_index = (if l.size - 1 == 0 then 0 else l.head_index + 1);
  }

  abbrev pub forget : Option View × Host → Linq → sys.State → Linq × sys.State × Host
  forget (none, h) l s = (l, s, h)
  forget (some v, h) l s = (shorten v l, s, h)

  -- `pop_head` behind the removal of the link with the target.
  unfoldable pub drop_link : Option Text → Linq → sys.State × Host → Linq × sys.State × Host
  drop_link none l (s, h) = (l, s, h)
  drop_link (some t) l (s, h) =
      if not (ok h)
      then (l, s, h)
      else forget (create_buffer_view (strip_legacy_metadata (slashed t)) h) l s

  -- `pop_head` behind the creation of the name of the link.
  unfoldable pub unlink_head : Text → Linq → sys.State → Host → Linq × sys.State × Host
  unfolding drop_link
  unlink_head link l s h =
      let (target, h') = read_entry link l s h in
      drop_link target l (tneg_do sys (sys.unlinkat l.dirfd link) s h')

  unfoldable pub pop_head : Linq → sys.State → Host → Linq × sys.State × Host
  pop_head l s h =
      if not (ok h)
      then (l, s, h)
      else let (link, h') = build (concat_size l.head_index) h in
        unlink_head (text_of link) (record l { head_mtime = none }) s h'

  -- The link buffer, if one was made, and the queue with the time of its head.
  unfoldable pub stat_head : Linq → sys.State → Host → Option Buffer × Linq × Host
  stat_head l s h = elim (l.head_mtime) [
    | some m ↦ (none, l, h)
    | none ↦
        let (link, h1) = build (concat_size l.head_index) h in
        let (m, h2) = tneg_ask sys (sys.mtime_at l.dirfd (text_of link)) s h1 in
        elim m [ none ↦ (link, l, h2) | some n ↦ (link, record l { head_mtime = some n }, h2) ]
  ]

  -- `if (!link)`
  abbrev pub link_or : Option Buffer → Linq → Host → Option Buffer × Host
  link_or none l h = build (concat_size l.head_index) h
  link_or (some b) l h = (some b, h)

  abbrev pub Answered : Type 0
  Answered = Option LinqHead × Linq × sys.State × Host

  -- The rest of `get_head` for the target of the head, with `again` for its call of itself.
  unfoldable pub judge_head :
      (Linq → sys.State → Host → Answered) → Text → Option View × Host → Linq → sys.State → Answered
  judge_head again t (none, h) l s = (none, l, s, h)
  judge_head again t (some v, h) l s =
      let (l', s', h') = pop_head l s h in
      if ltb 1 (get_count v l.set) then again l' s' h' else (
        some (record { target = some t; path = some (strip_legacy_metadata t); pause = seconds 0 }),
        l,
        s,
        h,
      )

  unfoldable pub view_head :
      (Linq → sys.State → Host → Answered) → Option Text × Host → Linq → sys.State → Answered
  unfolding judge_head
  view_head again (none, h) l s = (none, l, s, h)
  view_head again (some t, h) l s =
      judge_head again t (create_buffer_view (strip_legacy_metadata t) h) l s

  -- The rest of `get_head` once the head is due.
  unfoldable pub take_head :
      (Linq → sys.State → Host → Answered) → Option Buffer × Host → Linq → sys.State → Answered
  unfolding view_head
  take_head again (link, h) l s =
      if not (ok h) then (none, l, s, h) else view_head again (read_entry (text_of link) l s h) l s

  -- The rest of `get_head` once the time of the head is known.
  unfoldable pub await_head :
      (Linq → sys.State → Host → Answered) → Option Buffer × Linq × Host → sys.State → Answered
  unfolding take_head
  await_head again (made, l, h) s =
      if not (ok h)
      then (none, l, s, h)
      else if ltb (sys.time s) (due_at l)
      then (
        some (record { target = none; path = none; pause = seconds (due_at l - sys.time s) }),
        l,
        s,
        h,
      )
      else take_head again (link_or made l h) l s

  unfoldable pub get_head_from : ℕ → Linq → sys.State → Host → Answered
  get_head_from zero l s h = (none, l, s, h)
  get_head_from (suc fuel) l s h =
      let h' = (tnull_malloc h).1 in
      let again = get_head_from fuel in
      if not (ok h')
      then (none, l, s, h')
      else if l.size == 0
      then (some (record { target = none; path = none; pause = forever }), l, s, h')
      else await_head again (stat_head l s h') s

  -- Each round takes a link off the queue.
  unfoldable pub get_head : Linq → sys.State → Host → Option LinqHead × Linq × sys.State × Host
  get_head l s h = get_head_from (l.size + 1) l s h

abbrev pub redebounce : ℕ → Linq → Linq
redebounce n l = record l { debounce_seconds = n }
