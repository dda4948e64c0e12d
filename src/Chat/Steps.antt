-- ===== src/Chat/Steps.antt =====
-- How the handlers of Chat/chat_server.cc leave the table and the number of clients.
use socket_test.Common.{
  ℕ, zero, suc, ◌+◌, ◌-◌, ◌≤◌, ◌≡◌, refl, sym, ap, ◌∙◌, Bool, true, false, not, List, [], ◌∷◌,
  Option, none, some, arith, ltb, ◌&&◌, if◌then◌else◌, length, length-set, Bool-cases, Option-cases,
  inl, inr,
}
use socket_test.Common.Int.{ℤ, pos, negsuc, ◌+ℤ◌, ◌-ℤ◌, ltb_ℤ, pos_part}
use socket_test.Common.Run.{Run, ok, fault, out_of_bounds, ◌>>=◌}
use socket_test.Chat.{
  user_limit, fd_limit, PollFd, Chat, at, entry, user_index, same_fd, seat, on_accept, leave,
  broadcast, Received, bytes, peer_closed, would_block, recv_error, fill, on_data, on_writable,
  Answer, on_entry,
}

-- how many clients the counter counts, and one more where it is not negative
abbrev pub rank : ℤ → ℕ
rank (pos n) = suc n
rank (negsuc n) = 0

-- How the handling of an entry ends: outside an array; with the loop going on, and one client more at
-- most; or with the loop back at the entry, and one client less.
pub data IsStep (s : Chat) : Run (Chat × Bool) → Type 0 where
  outside : IsStep s (fault out_of_bounds)
  goes_on :
      {s' : Chat}
      → length s'.fds ≡ length s.fds
      → rank s'.user_counter ≤ suc (rank s.user_counter)
      → IsStep s (ok (s', false))
  comes_back :
      {s' : Chat}
      → length s'.fds ≡ length s.fds
      → suc (rank s'.user_counter) ≡ rank s.user_counter
      → IsStep s (ok (s', true))

-- An access ends outside, or with a value.
data IsAccess {A : Type 0} : Run A → Type 0 where
  refused : IsAccess (fault out_of_bounds)
  granted : (a : A) → IsAccess (ok a)

at-IsAccess : (ps : List PollFd) (i : ℕ) → IsAccess (at ps i)
unfolding at
at-IsAccess [] i = refused
at-IsAccess (p ∷ ps) zero = granted p
at-IsAccess (p ∷ ps) (suc i) = at-IsAccess ps i

user_index-IsAccess : (fd : Option ℕ) → IsAccess (user_index fd)
unfolding user_index
user_index-IsAccess none = refused
user_index-IsAccess (some fd) = elim (Bool-cases (ltb fd fd_limit)) [
  | inl fits ↦ rw fits (granted fd)
  | inr large ↦ rw large refused
]

bind-IsStep :
    {A : Type 0} {s : Chat} {r : Run A} {f : A → Run (Chat × Bool)}
    → IsAccess r
    → ((a : A) → r ≡ ok a → IsStep s (f a))
    → IsStep s (r >>= f)
bind-IsStep refused next = outside
bind-IsStep (granted a) next = next a refl

if-IsStep :
    {s : Chat} (b : Bool) {r r' : Run (Chat × Bool)}
    → IsStep s r
    → IsStep s r'
    → IsStep s (if b then r else r')
if-IsStep true p q = p
if-IsStep false p q = q

seat-IsStep :
    (s : Chat) (c : ℤ) (fd : ℕ) (s0 : Chat)
    → length s0.fds ≡ length s.fds
    → rank c ≤ suc (rank s.user_counter)
    → IsStep s (seat c fd s0 >>= λ s'. ok (s', false))
unfolding seat
seat-IsStep s (negsuc i) fd s0 len less = outside
seat-IsStep s (pos i) fd s0 len less = elim (Bool-cases (ltb i (length s0.fds))) [
  | inl fits ↦ rw fits (goes_on (length-set s0.fds i _ ∙ len) less)
  | inr large ↦ rw large outside
]

rank-add : (c : ℤ) → rank (c +ℤ pos 1) ≤ suc (rank c)
unfolding ◌+ℤ◌
rank-add (pos n) = ground arith
rank-add (negsuc n) = ground arith

on_accept-IsStep : (a : Option ℕ) (s : Chat) → IsStep s (on_accept a s)
unfolding on_accept
on_accept-IsStep none s = goes_on refl (omega arith)
on_accept-IsStep (some fd) s =
    if-IsStep (not (ltb_ℤ s.user_counter (pos user_limit))) (goes_on refl (omega arith)) (
      bind-IsStep (user_index-IsAccess (some fd))
        λ u e. seat-IsStep s (s.user_counter +ℤ pos 1) fd _ refl (rank-add s.user_counter))

last-IsStep :
    {s : Chat} (ps : List PollFd) (c : ℤ) {f : PollFd → Run (Chat × Bool)}
    → ((k : ℕ) → c ≡ pos k → (q : PollFd) → IsStep s (f q))
    → IsStep s (entry ps c >>= f)
unfolding entry
last-IsStep ps (pos k) next = bind-IsStep (at-IsAccess ps k) λ q e. next k refl q
last-IsStep ps (negsuc k) next = outside

rank-sub : (k : ℕ) → suc (rank (pos k -ℤ pos 1)) ≡ rank (pos k)
unfolding ◌-ℤ◌
rank-sub k = ground arith

leave-IsStep :
    (i : ℕ) (s s0 : Chat)
    → length s0.fds ≡ length s.fds
    → s0.user_counter ≡ s.user_counter
    → IsStep s (leave i s0)
unfolding leave
leave-IsStep i s s0 len same = bind-IsStep (at-IsAccess s0.fds i) λ p ep.
    last-IsStep s0.fds s0.user_counter λ k ek q. bind-IsStep (user_index-IsAccess p.fd) λ u eu.
      bind-IsStep (user_index-IsAccess q.fd) λ w ew.
        comes_back (length-set s0.fds i q ∙ len)
          (ap (λ c. suc (rank (c -ℤ pos 1))) ek ∙ rank-sub k ∙ ap rank (sym ek ∙ same))

-- what passing a message on leaves
data IsPassed (s : Chat) : Run Chat → Type 0 where
  stopped : IsPassed s (fault out_of_bounds)
  passed :
      {s' : Chat}
      → length s'.fds ≡ length s.fds
      → s'.user_counter ≡ s.user_counter
      → IsPassed s (ok s')

bind-IsPassed :
    {A : Type 0} {s : Chat} {r : Run A} {f : A → Run Chat}
    → IsAccess r
    → ((a : A) → IsPassed s (f a))
    → IsPassed s (r >>= f)
bind-IsPassed refused next = stopped
bind-IsPassed (granted a) next = next a

if-IsPassed :
    {s : Chat} (b : Bool) {r r' : Run Chat}
    → IsPassed s r
    → IsPassed s r'
    → IsPassed s (if b then r else r')
if-IsPassed true p q = p
if-IsPassed false p q = q

broadcast-IsPassed :
    (n j fd : ℕ) (s s0 : Chat)
    → length s0.fds ≡ length s.fds
    → s0.user_counter ≡ s.user_counter
    → IsPassed s (broadcast n j fd s0)
unfolding broadcast
broadcast-IsPassed zero j fd s s0 len same = passed len same
broadcast-IsPassed (suc n) j fd s s0 len same = bind-IsPassed (at-IsAccess s0.fds j) λ p.
    if-IsPassed (same_fd p.fd fd) (broadcast-IsPassed n (j + 1) fd s s0 len same) (
      bind-IsPassed (user_index-IsAccess p.fd)
        λ u. broadcast-IsPassed n (j + 1) fd s _ (length-set s0.fds j _ ∙ len) same)

passed-IsStep : {s : Chat} {r : Run Chat} → IsPassed s r → IsStep s (r >>= λ s'. ok (s', false))
passed-IsStep stopped = outside
passed-IsStep {s} (passed len same) = goes_on len (omega (arith, ap rank same))

on_data-IsStep : (i : ℕ) (r : Received) (s : Chat) → IsStep s (on_data i r s)
unfolding on_data fill
on_data-IsStep i (bytes text) s = bind-IsStep (at-IsAccess s.fds i) λ p ep.
    bind-IsStep (user_index-IsAccess p.fd) λ u eu.
      passed-IsStep
        (broadcast-IsPassed (pos_part s.user_counter - 1) 1 u s (fill u text s) refl refl)
on_data-IsStep i peer_closed s =
    bind-IsStep (at-IsAccess s.fds i)
      λ p ep. bind-IsStep (user_index-IsAccess p.fd) λ u eu. goes_on refl (omega arith)
on_data-IsStep i would_block s =
    bind-IsStep (at-IsAccess s.fds i)
      λ p ep. bind-IsStep (user_index-IsAccess p.fd) λ u eu. goes_on refl (omega arith)
on_data-IsStep i recv_error s =
    bind-IsStep (at-IsAccess s.fds i) λ p ep.
      bind-IsStep (user_index-IsAccess p.fd) λ u eu. leave-IsStep i s (fill u [] s) refl refl

on_writable-IsStep : (i : ℕ) (s : Chat) → IsStep s (on_writable i s)
unfolding on_writable
on_writable-IsStep i s = bind-IsStep (at-IsAccess s.fds i) λ p ep.
    bind-IsStep (user_index-IsAccess p.fd) λ u eu. elim (Option-cases (s.users u).write_buf) [
      | inl unset ↦ rw unset (goes_on refl (omega arith))
      | inr (w, set_to) ↦ rw set_to (goes_on (length-set s.fds i _) (omega arith))
    ]

pub on_entry-IsStep : (a : Answer) (i : ℕ) (s : Chat) → IsStep s (on_entry a i s)
unfolding on_entry
on_entry-IsStep a i s = bind-IsStep (at-IsAccess s.fds i) λ p ep.
    if-IsStep (same_fd p.fd s.listenfd && p.revents.pollin) (on_accept-IsStep a.accepted s) (
      if-IsStep p.revents.pollerr (goes_on refl (omega arith)) (
        if-IsStep p.revents.pollrdhup (leave-IsStep i s s refl refl) (
          if-IsStep p.revents.pollin (on_data-IsStep i a.received s)
            (if-IsStep p.revents.pollout (on_writable-IsStep i s) (goes_on refl (omega arith))))))

pub at-outside : (ps : List PollFd) (i : ℕ) → length ps ≤ i → at ps i ≡ fault out_of_bounds
unfolding at
at-outside [] i h = refl
at-outside (p ∷ ps) zero h = absurd (omega arith)
at-outside (p ∷ ps) (suc i) h = at-outside ps i (omega arith)
