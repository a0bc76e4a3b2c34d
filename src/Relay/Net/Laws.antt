-- ===== src/Relay/Net/Laws.antt =====
-- Writes and closes leave the registry alone; a broadcast adds one write for each connection.
use pocketclaude.Base.{◌≡◌, refl, List, [], ◌∷◌, ◌++◌, map, ◌∙◌, append_assoc, append-nil, sym}
use pocketclaude.Relay.Registry.{Conn}
use pocketclaude.Relay.Net.{Env, World, Frame, write, post, post_all, close}

module _ (env : Env) where
  pub registry-write :
      (w : World) (c : Conn) (f : Frame) → (write env w c f).0.registry ≡ w.registry
  unfolding write
  registry-write w c f = refl

  pub closed-write : (w : World) (c : Conn) (f : Frame) → (write env w c f).0.closed ≡ w.closed
  unfolding write
  closed-write w c f = refl

  pub writes-write :
      (w : World) (c : Conn) (f : Frame) → (write env w c f).0.writes ≡ w.writes ++ (c, f) ∷ []
  unfolding write
  writes-write w c f = refl

  pub registry-post_all :
      (f : Frame) (cs : List Conn) (w : World) → (post_all env f cs w).registry ≡ w.registry
  unfolding post_all
  registry-post_all f [] w = refl
  registry-post_all f (c ∷ cs) w = registry-post_all f cs _

  pub closed-post_all :
      (f : Frame) (cs : List Conn) (w : World) → (post_all env f cs w).closed ≡ w.closed
  unfolding post_all
  closed-post_all f [] w = refl
  closed-post_all f (c ∷ cs) w = closed-post_all f cs _

  pub writes-post_all :
      (f : Frame) (cs : List Conn) (w : World)
      → (post_all env f cs w).writes ≡ w.writes ++ map (λ c. (c, f)) cs
  unfolding post_all
  writes-post_all f [] w = sym (append-nil w.writes)
  writes-post_all f (c ∷ cs) w =
      writes-post_all f cs (post env w c f)
      ∙ append_assoc w.writes ((c, f) ∷ []) (map (λ d. (d, f)) cs)

pub registry-close : (w : World) (c : Conn) → (close w c).registry ≡ w.registry
unfolding close
registry-close w c = refl

pub writes-close : (w : World) (c : Conn) → (close w c).writes ≡ w.writes
unfolding close
writes-close w c = refl

pub closed-close : (w : World) (c : Conn) → (close w c).closed ≡ w.closed ++ c ∷ []
unfolding close
closed-close w c = refl

pub ruleset net_laws = (
  registry-write, closed-write, writes-write, registry-post_all, closed-post_all, writes-post_all,
  registry-close, writes-close, closed-close,
)
