-- ===== src/Handler/Pushes/Queued.antt =====
-- What the pushes of `push_to_linq` of src/handler.c do to the queue.
use klunok.Prelude.{◌+◌, ◌<◌, List, [], ◌∷◌, ◌++◌, false, Text, ◌≡◌, ◌⊎◌, inl, inr, length}
use klunok.Trace.{Host, ok, try}
use klunok.Trace.Rethrown.{rethrown-try, ok-rethrown}
use klunok.Messages.{handler_linq_cannot_push}
use klunok.Buffer.{size_mod}
use klunok.Buffer.Ample.{IsReady, try-IsReady}
use klunok.Set.{count_mod}
use klunok.System.{System}
use klunok.Linq.{Linq, slashed, push}
use klunok.Linq.Queue.{IsLinkStore, Represents, IsTarget, path_in}
use klunok.Linq.Push.{push-Represents}
use klunok.Handler.Pushes.{push_reported}

-- A path is pushed behind the queue, or there is an error and the queue is as it was.
pub push_reported-Represents :
    (sys : System)
    → IsLinkStore sys
    → (p : Text) (l : Linq) (s : sys.State) (q : List Text) (h : Host) → IsReady h
    → Represents sys l s q
    → IsTarget p
    → path_in p ≡ slashed p
    → l.head_index + length q + 1 < size_mod
    → length q + 1 < count_mod
    → (((push_reported sys p l s h).2 ≡ h)
        × Represents sys (push_reported sys p l s h).0 (push_reported sys p l s h).1 (q ++ p ∷ []))
      ⊎ ((ok (push_reported sys p l s h).2 ≡ false)
          × Represents sys (push_reported sys p l s h).0 (push_reported sys p l s h).1 q)
unfolding push_reported
push_reported-Represents sys store p l s q h a w v clean room few =
    let b = try-IsReady h a in
    elim (push-Represents sys store p l s q (try h) b.ample w v clean room few) [
      | inl (calm, more) ↦ inl (
        rw calm (
            rethrown-try handler_linq_cannot_push p h
              (record { fine = a.ample.fine; outside = a.outside })),
        more,
      )
      | inr (bad, same) ↦
          inr (ok-rethrown handler_linq_cannot_push p (push sys p l s (try h)).2 bad, same)
    ]
