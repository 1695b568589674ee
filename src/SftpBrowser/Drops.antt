-- ===== src/SftpBrowser/Drops.antt =====
-- What the drop of many files does to the transfer queue, apps/ui/src/sftp/SftpBrowser.tsx.
use tethra.Base.{
  Bool, List, Text, [], ap, append-nil, append_assoc, false, if-intro, map, not, refl, sym, true,
  ◌++◌, ◌∙◌, ◌∷◌, ◌≡◌,
}
use tethra.SftpBrowser.{
  OsDrop, SftpBrowser, dropped, dropped_item, enqueue_all, hover, leave, on_os_file_drop,
}
use tethra.TransferQueue.{
  Effect, NewItem, TransferQueueRunner, cancel_transfer, changed, enqueue, start,
}
use tethra.TransferQueue.World.{World, after, call_enqueue, started, user}
use tethra.TransferQueue.Invariant.{IsValid, Step-IsValid}
use mathlib.Core.Path.{subst}

started-append : (es fs : List Effect) → started (es ++ fs) ≡ started es ++ started fs
started-append [] fs = refl
started-append (changed ∷ es) fs = started-append es fs
started-append (start s i d l p o ∷ es) fs = ap (λ r. i ∷ r) (started-append es fs)
started-append (cancel_transfer i ∷ es) fs = started-append es fs

flights-append :
    (fs : List Text) (es more : List Effect)
    → (fs ++ started es) ++ started more ≡ fs ++ started (es ++ more)
flights-append fs es more =
    append_assoc fs (started es) (started more) ∙ ap (λ r. fs ++ r) (sym (started-append es more))

abbrev world : TransferQueueRunner → List Text → World
world r flights = record { runner = r; flights = flights }

enqueue_all-IsValid :
    (ns : List NewItem) (w : World)
    → IsValid w
    → IsValid (after w.flights (enqueue_all ns w.runner))
enqueue_all-IsValid [] w v =
    subst (λ fs. IsValid (world w.runner fs)) (sym (append-nil w.flights)) v
enqueue_all-IsValid (n ∷ ns) w v =
    let (r', effects) = enqueue w.runner n in
    let (r'', more) = enqueue_all ns r' in
    subst (λ fs. IsValid (world r'' fs)) (flights-append w.flights effects more)
      (enqueue_all-IsValid ns (after w.flights (r', effects))
        (Step-IsValid (user w (call_enqueue n)) v))

-- The queue of the browser, with the transfers in flight, when its calls are made.
abbrev pub IsKept : List Text → SftpBrowser × List Effect → Type 0
IsKept flights (b, effects) = IsValid (after flights (b.queue, effects))

unmoved :
    (flights : List Text) (b : SftpBrowser)
    → IsValid (world b.queue flights)
    → IsKept flights (b, [])
unmoved flights b v = enqueue_all-IsValid [] (world b.queue flights) v

hovered :
    (flights : List Text) (b : SftpBrowser) (active : Bool)
    → IsValid (world b.queue flights)
    → IsKept flights (record b { os_drag_active = active }, [])
hovered flights b active v = unmoved flights (record b { os_drag_active = active }) v

-- Whatever is dropped on the browser, while the queue is in order it stays in order: one transfer is in
-- flight while the runner runs, which is the active one, and none waits while it does not run.
pub on_os_file_drop-IsValid :
    (e : OsDrop) (b : SftpBrowser) (flights : List Text)
    → IsValid (world b.queue flights)
    → IsKept flights (on_os_file_drop e b)
unfolding on_os_file_drop
on_os_file_drop-IsValid hover b flights v =
    if-intro (λ c. IsKept flights (c, [])) b.active (hovered flights b true v) (unmoved flights b v)
on_os_file_drop-IsValid leave b flights v =
    if-intro (λ c. IsKept flights (c, [])) b.active (hovered flights b false v)
      (unmoved flights b v)
on_os_file_drop-IsValid (dropped paths) b flights v =
    if-intro (IsKept flights) (not b.active) (unmoved flights b v)
      (enqueue_all-IsValid (map (dropped_item b) paths) (world b.queue flights) v)
