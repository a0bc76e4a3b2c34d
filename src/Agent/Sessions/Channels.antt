-- ===== src/Agent/Sessions/Channels.antt =====
-- How Go's channels take the events of a session manager.
use pocketclaude.Base.{
  ℕ, suc, ◌+◌, ◌≤◌, GoString, str_eq, str_eq_iff, ◌≡◌, refl, ◌∙◌, Bool, true, false, Option, none,
  some, List, [], ◌∷◌, ◌++◌, map, arith, if◌then◌else◌, if_split, ◌==◌, Bool-cases, inl, inr,
}
use pocketclaude.Base.GoMap.{GoMap, lookup, insert, delete, Unique, insert-Unique, delete-Unique}
use pocketclaude.Agent.Sessions.{
  Chan, Event, made, closed_chan, sent, dropped, subs_of, put_subs, cut_chan, has_chan,
  broadcast_to, close_subs,
}

-- The channels that are open after the events, from those that are open before; `none` is a panic. A
-- channel that is open already is not made.
unfoldable pub run : List Event → List Chan → Option (List Chan)
run [] open_ = some open_
run (made ch ∷ events) open_ = if has_chan ch open_ then none else run events (ch ∷ open_)
run (closed_chan ch ∷ events) open_ =
    if has_chan ch open_ then run events (cut_chan ch open_) else none
run (sent ch chunk ∷ events) open_ = if has_chan ch open_ then run events open_ else none
run (dropped ch chunk ∷ events) open_ = if has_chan ch open_ then run events open_ else none

unfoldable pub count : Chan → List Chan → ℕ
count c [] = 0
count c (ch ∷ chans) = if ch == c then suc (count c chans) else count c chans

-- How often a channel is subscribed.
unfoldable pub total : Chan → GoMap (List Chan) → ℕ
total c [] = 0
total c ((id, chans) ∷ subs) = count c chans + total c subs

pub count-append : (c : Chan) (l k : List Chan) → count c (l ++ k) ≡ count c l + count c k
unfolding count
count-append c [] k = omega arith
count-append c (ch ∷ l) k = ground (arith, count-append c l k)

pub count-cut_chan :
    (c d : Chan) (l : List Chan)
    → count c l ≡ count c (cut_chan d l) + (if has_chan d l then count c (d ∷ []) else 0)
unfolding count cut_chan has_chan
count-cut_chan c d [] = omega arith
count-cut_chan c d (ch ∷ l) = ground (arith, count-cut_chan c d l)

pub has_chan-count : (d : Chan) (l : List Chan) → 1 ≤ count d l → has_chan d l ≡ true
unfolding count has_chan
has_chan-count d [] h = absurd (omega (arith, h))
has_chan-count d (ch ∷ l) h = ground (arith, has_chan-count d l)

pub has_chan-zero : (d : Chan) (l : List Chan) → count d l ≡ 0 → has_chan d l ≡ false
unfolding count has_chan
has_chan-zero d [] h = refl
has_chan-zero d (ch ∷ l) h = ground (arith, has_chan-zero d l)

pub run-append :
    (es fs : List Event) (open_ mid : List Chan)
    → run es open_ ≡ some mid
    → run (es ++ fs) open_ ≡ run fs mid
unfolding run
run-append [] fs open_ mid e = ground (arith, e)
run-append (made ch ∷ es) fs open_ mid e = ground (arith, e, run-append es fs (ch ∷ open_) mid)
run-append (closed_chan ch ∷ es) fs open_ mid e =
    ground (arith, e, run-append es fs (cut_chan ch open_) mid)
run-append (sent ch chunk ∷ es) fs open_ mid e = ground (arith, e, run-append es fs open_ mid)
run-append (dropped ch chunk ∷ es) fs open_ mid e = ground (arith, e, run-append es fs open_ mid)

-- The events do not panic, and take from each channel's count what `gone` says.
abbrev pub Closes : List Event → List Chan → (Chan → ℕ) → Type 0
Closes events open_ gone =
    (left : List Chan) × (run events open_ ≡ some left)
    × ((c : Chan) → count c open_ ≡ count c left + gone c)

count-head : (ch : Chan) (l : List Chan) → count ch (ch ∷ l) ≡ suc (count ch l)
unfolding count
count-head ch l = ground arith

count-tail_le : (c ch : Chan) (l : List Chan) → count c l ≤ count c (ch ∷ l)
unfolding count
count-tail_le c ch l = ground arith

pub count-cons : (c ch : Chan) (l : List Chan) → count c (ch ∷ l) ≡ count c (ch ∷ []) + count c l
unfolding count
count-cons c ch l = ground arith

pub close_one :
    (ch : Chan) (open_ : List Chan)
    → 1 ≤ count ch open_
    → Closes (closed_chan ch ∷ []) open_ (λ c. count c (ch ∷ []))
unfolding run
close_one ch open_ h =
    (cut_chan ch open_, rw (has, run) refl, λ c. rw (has) at (count-cut_chan c ch open_))
  where
    has : has_chan ch open_ ≡ true
    has = has_chan-count ch open_ h

pub Closes-append :
    (es fs : List Event) (open_ : List Chan) (n k : Chan → ℕ) (first : Closes es open_ n)
    → Closes fs first.0 k
    → Closes (es ++ fs) open_ (λ c. n c + k c)
Closes-append es fs open_ n k (mid, ran, counts) (left, ran', counts') =
    (left, run-append es fs open_ mid ran ∙ ran', λ c. omega (arith, counts c, counts' c))

pub close_list :
    (l : List Chan) (open_ : List Chan)
    → ((c : Chan) → count c l ≤ count c open_)
    → Closes (map closed_chan l) open_ (λ c. count c l)
unfolding run count
close_list [] open_ h = (open_, refl, λ c. omega arith)
close_list (ch ∷ l) open_ h =
    let first = close_one ch open_ (omega (arith, h ch, count-head ch l)) in
    let (left, ran, counts) =
      Closes-append (closed_chan ch ∷ []) (map closed_chan l) open_ (λ c. count c (ch ∷ []))
        (λ c. count c l) first
        (close_list l first.0 (λ c. omega (arith, h c, first.2 c, count-cons c ch l))) in
    (left, ran, λ c. omega (arith, counts c, count-cons c ch l))

pub close_subs-Closes :
    (subs : GoMap (List Chan)) (open_ : List Chan)
    → ((c : Chan) → total c subs ≤ count c open_)
    → Closes (close_subs subs) open_ (λ c. total c subs)
unfolding close_subs total run
close_subs-Closes [] open_ h = (open_, refl, λ c. omega arith)
close_subs-Closes ((id, l) ∷ subs) open_ h =
    let first = close_list l open_ (λ c. omega (arith, h c)) in
    Closes-append (map closed_chan l) (close_subs subs) open_ (λ c. count c l) (λ c. total c subs)
      first (close_subs-Closes subs first.0 (λ c. omega (arith, h c, first.2 c)))

pub run-broadcast_to :
    (room : Chan → Bool) (chunk : GoString) (l open_ : List Chan)
    → ((c : Chan) → count c l ≤ count c open_)
    → run (broadcast_to room chunk l) open_ ≡ some open_
unfolding broadcast_to run
run-broadcast_to room chunk [] open_ h = refl
run-broadcast_to room chunk (ch ∷ l) open_ h =
    let has = has_chan-count ch open_ (omega (arith, h ch, count-head ch l)) in
    let rest =
      run-broadcast_to room chunk l open_ (λ c. omega (arith, h c, count-tail_le c ch l)) in
    if_split (λ e. run (e ∷ broadcast_to room chunk l) open_ ≡ some open_) (room ch)
      (λ _. rw (has, run) rest) (λ _. rw (has, run) rest)

total-absent :
    (c : Chan) (id : GoString) (subs : GoMap (List Chan))
    → lookup id subs ≡ none
    → total c (delete id subs) ≡ total c subs
unfolding total lookup delete
total-absent c id [] h = refl
total-absent c id ((k, l) ∷ subs) h = ground (arith, h, total-absent c id subs)

count-subs_of :
    (c : Chan) (id k : GoString) (l : List Chan) (subs : GoMap (List Chan))
    → count c (subs_of id ((k, l) ∷ subs))
      ≡ (if str_eq k id then count c l else count c (subs_of id subs))
unfolding lookup
count-subs_of c id k l subs = ground arith

total-delete_cons :
    (c : Chan) (id k : GoString) (l : List Chan) (subs : GoMap (List Chan))
    → total c (delete id ((k, l) ∷ subs))
      ≡ (if str_eq k id then total c (delete id subs) else count c l + total c (delete id subs))
unfolding delete total
total-delete_cons c id k l subs = ground arith

pub total-delete :
    (c : Chan) (id : GoString) (subs : GoMap (List Chan))
    → Unique subs
    → total c subs ≡ total c (delete id subs) + count c (subs_of id subs)
unfolding total
total-delete c id [] h = unfold count lookup delete in omega arith
total-delete c id ((k, l) ∷ subs) h = elim (Bool-cases (str_eq k id)) [
  | inl hit ↦ omega (
    arith,
    rw (hit) at (total-delete_cons c id k l subs),
    rw (hit) at (count-subs_of c id k l subs),
    total-absent c id subs (rw ((str_eq_iff k id).0 hit) at h.0),
  )
  | inr miss ↦ omega (
    arith,
    rw (miss) at (total-delete_cons c id k l subs),
    rw (miss) at (count-subs_of c id k l subs),
    total-delete c id subs h.1,
  )
]

pub total-insert :
    (c : Chan) (id : GoString) (l : List Chan) (subs : GoMap (List Chan))
    → total c (insert id l subs) ≡ count c l + total c (delete id subs)
unfolding total insert
total-insert c id l subs = refl

pub count-other : (c ch : Chan) → suc ch ≤ c → count c (ch ∷ []) ≡ 0
unfolding count
count-other c ch h = ground arith

pub count-has_chan : (d : Chan) (l : List Chan) → has_chan d l ≡ true → 1 ≤ count d l
unfolding count has_chan
count-has_chan d [] h = cc
count-has_chan d (ch ∷ l) h = ground (arith, h, count-has_chan d l)

pub total-put_subs :
    (c : Chan) (id : GoString) (l : List Chan) (subs : GoMap (List Chan))
    → total c (put_subs id l subs) ≡ count c l + total c (delete id subs)
unfolding count
total-put_subs c id [] subs = omega arith
total-put_subs c id (ch ∷ l) subs = total-insert c id (ch ∷ l) subs

pub put_subs-Unique :
    (id : GoString) (l : List Chan) (subs : GoMap (List Chan))
    → Unique subs
    → Unique (put_subs id l subs)
put_subs-Unique id [] subs h = delete-Unique id subs h
put_subs-Unique id (ch ∷ l) subs h = insert-Unique id (ch ∷ l) subs h

-- What UnsubscribeOutput does to the channels.
pub cut_chan-Closes :
    (ch : Chan) (subs open_ : List Chan)
    → ((c : Chan) → count c subs ≤ count c open_)
    → Closes
        (if has_chan ch subs then closed_chan ch ∷ [] else [])
        open_
        (λ c. if has_chan ch subs then count c (ch ∷ []) else 0)
unfolding run
cut_chan-Closes ch subs open_ h = elim (Bool-cases (has_chan ch subs)) [
  | inl has ↦ rw (has) (close_one ch open_ (omega (arith, h ch, count-has_chan ch subs has)))
  | inr absent ↦ rw (absent) (open_, refl, λ c. omega arith)
]
