-- ===== src/Share/SessionOperation/Protocol.antt =====
-- Rules for what a program of calls does, whatever the replies are. A protocol says which calls a
-- state allows, which replies may come, and what state follows.
use qurl_connector.Base.{◌≡◌, subst, Option, List, [], ◌∷◌}
use qurl_connector.Share.SessionOperation.{Failure}
use qurl_connector.Share.SessionOperation.Program.{
  Call, Reply, Program, finish, ask, ◌>>=◌, ◌>>>◌, on_proceed, Next, leave, again, proceed, Event,
  event, World, run,
}

pub record Protocol (Op S : Type 0) : Type 1 where
  pub Allows : S → Call Op → Type 0
  pub Answers : S → (c : Call Op) → Reply c → Type 0
  pub after : S → (c : Call Op) → Reply c → S

module _ {Op S : Type 0} (P : Protocol Op S) where
  -- Every call is allowed where it is made, and `Q` holds of the result and the last state.
  abbrev pub Ensures : {A : Type 0} → Program Op A → S → (A → S → Type 0) → Type 0
  Ensures (finish a) s Q = Q a s
  Ensures (ask c k) s Q =
      P.Allows s c × ((r : Reply c) → P.Answers s c r → Ensures (k r) (P.after s c r) Q)

  -- The calls of a run, each allowed in the state that the earlier ones left.
  abbrev pub Follows : S → List (Event Op) → Type 0
  Follows s [] = Unit
  Follows s (event c r ∷ es) = P.Allows s c × Follows (P.after s c r) es

  -- The state that the calls of a run leave.
  abbrev pub state_after : S → List (Event Op) → S
  state_after s [] = s
  state_after s (event c r ∷ es) = state_after (P.after s c r) es

  pub Ensures-bind :
      {A B : Type 0} (m : Program Op A) (f : A → Program Op B) (s : S) (Q : B → S → Type 0)
      → Ensures m s (λ a t. Ensures (f a) t Q)
      → Ensures (m >>= f) s Q
  Ensures-bind (finish a) f s Q h = h
  Ensures-bind (ask c k) f s Q (allowed, later) =
      (allowed, λ r ok. Ensures-bind (k r) f (P.after s c r) Q (later r ok))

  pub Ensures-mono :
      {A : Type 0} (m : Program Op A) (s : S) (Q R : A → S → Type 0)
      → ((a : A) (t : S) → Q a t → R a t)
      → Ensures m s Q
      → Ensures m s R
  Ensures-mono (finish a) s Q R f h = f a s h
  Ensures-mono (ask c k) s Q R f (allowed, later) =
      (allowed, λ r ok. Ensures-mono (k r) (P.after s c r) Q R f (later r ok))

  -- `Q` where a stage proceeds, `G` where the loop starts over, `L` where it returns.
  abbrev pub EndsAll :
      {A : Type 0}
      → (Option Failure → S → Type 0)
      → (S → Type 0)
      → (A → S → Type 0)
      → Next A
      → S
      → Type 0
  EndsAll L G Q (leave f) s = L f s
  EndsAll L G Q again s = G s
  EndsAll L G Q (proceed a) s = Q a s

  abbrev pub EndsOr : {A : Type 0} → (S → Type 0) → (A → S → Type 0) → Next A → S → Type 0
  EndsOr = EndsAll (λ f s. Unit)

  abbrev pub Ends : {A : Type 0} → (A → S → Type 0) → Next A → S → Type 0
  Ends = EndsOr (λ s. Unit)

  on_proceed-Ends :
      {A B : Type 0} (L : Option Failure → S → Type 0) (G : S → Type 0)
      (f : A → Program Op (Next B)) (Q : A → S → Type 0) (R : B → S → Type 0)
      → ((a : A) (t : S) → Q a t → Ensures (f a) t (EndsAll L G R))
      → (n : Next A) (t : S) → EndsAll L G Q n t
      → Ensures (on_proceed f n) t (EndsAll L G R)
  on_proceed-Ends L G f Q R h (leave r) t k = k
  on_proceed-Ends L G f Q R h again t k = k
  on_proceed-Ends L G f Q R h (proceed a) t k = h a t k

  -- A stage after another one.
  pub EndsAll-then :
      {A B : Type 0} (L : Option Failure → S → Type 0) (G : S → Type 0) (m : Program Op (Next A))
      (f : A → Program Op (Next B)) (s : S) (Q : A → S → Type 0) (R : B → S → Type 0)
      → Ensures m s (EndsAll L G Q)
      → ((a : A) (t : S) → Q a t → Ensures (f a) t (EndsAll L G R))
      → Ensures (m >>> f) s (EndsAll L G R)
  EndsAll-then L G m f s Q R h k = Ensures-bind m (on_proceed f) s (EndsAll L G R) (
      Ensures-mono m s (EndsAll L G Q) (λ n t. Ensures (on_proceed f n) t (EndsAll L G R))
        (on_proceed-Ends L G f Q R k) h)

  pub EndsOr-then :
      {A B : Type 0} (G : S → Type 0) (m : Program Op (Next A)) (f : A → Program Op (Next B))
      (s : S) (Q : A → S → Type 0) (R : B → S → Type 0)
      → Ensures m s (EndsOr G Q)
      → ((a : A) (t : S) → Q a t → Ensures (f a) t (EndsOr G R))
      → Ensures (m >>> f) s (EndsOr G R)
  EndsOr-then G m f s Q R h k = EndsAll-then (λ f s. Unit) G m f s Q R h k

  pub Ends-then :
      {A B : Type 0} (m : Program Op (Next A)) (f : A → Program Op (Next B)) (s : S)
      (Q : A → S → Type 0) (R : B → S → Type 0)
      → Ensures m s (Ends Q)
      → ((a : A) (t : S) → Q a t → Ensures (f a) t (Ends R))
      → Ensures (m >>> f) s (Ends R)
  Ends-then m f s Q R h k = EndsOr-then (λ s. Unit) m f s Q R h k

module _ {Op S W : Type 0} (P : Protocol Op S) (world : World Op W) where
  -- In a world that answers as the protocol says, a run follows it.
  pub run-Follows :
      {A : Type 0} (m : Program Op A) (s : S) (w : W) (Q : A → S → Type 0)
      → ((t : S) (c : Call Op) (v : W) → P.Answers t c (world c v).0)
      → Ensures P m s Q
      → Follows P s (run world m w).events
  unfolding run
  run-Follows (finish a) s w Q answers h = tt
  run-Follows (ask c k) s w Q answers (allowed, later) =
      let (reply, w') = world c w in
      (
        allowed,
        run-Follows (k reply) (P.after s c reply) w' Q answers (later reply (answers s c w)),
      )

  pub run-result :
      {A : Type 0} (m : Program Op A) (s : S) (w : W) (Q : A → S → Type 0)
      → ((t : S) (c : Call Op) (v : W) → P.Answers t c (world c v).0)
      → Ensures P m s Q
      → Q (run world m w).result (state_after P s (run world m w).events)
  unfolding run
  run-result (finish a) s w Q answers h = h
  run-result (ask c k) s w Q answers (allowed, later) =
      let (reply, w') = world c w in
      run-result (k reply) (P.after s c reply) w' Q answers (later reply (answers s c w))

  -- The same where the replies depend on the world's state, of which `view` is the protocol's.
  pub run-view :
      {A : Type 0} (view : W → S) (m : Program Op A) (w : W) (Q : A → S → Type 0)
      → ((c : Call Op) (v : W)
          → P.Answers (view v) c (world c v).0
            × (P.after (view v) c (world c v).0 ≡ view (world c v).1))
      → Ensures P m (view w) Q
      → Q (run world m w).result (view (run world m w).world)
  unfolding run
  run-view view (finish a) w Q lawful h = h
  run-view view (ask c k) w Q lawful (allowed, later) =
      let (reply, w') = world c w in
      let (fits, next) = lawful c w in
      run-view view (k reply) w' Q lawful
        (subst (λ (t : S). Ensures P (k reply) t Q) next (later reply fits))
