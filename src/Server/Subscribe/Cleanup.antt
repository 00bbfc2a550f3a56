-- ===== src/Server/Subscribe/Cleanup.antt =====
-- server/server.go and server/session.go: what the channels of several subscriptions are told of a
-- client that comes and goes.
use wstester.Prelude.{
  ℕ, ◌≡◌, Bool, true, false, ◌&&◌, Option, none, some, List, [], ◌∷◌, ◌++◌, ◌==◌, if◌then◌else◌,
  nat_eq,
}
use wstester.Channels.{ChannelInput, add_destination, remove_destination}
use wstester.Server.Subscribe.{Task, Serving}
use wstester.Server.Subscribe.Queue.{with_inputs, queue}

abbrev pub is_for : ℕ → ℕ → Task → Bool
is_for cache depth task = (cache == task.cache) && (depth == task.depth)

abbrev pub last : Option (Task × ℕ) → List (Task × ℕ) → Option (Task × ℕ)
last found [] = found
last found (task ∷ tasks) = last (some task) tasks

module _ {A : Type 0} where
  -- What one channel is told while the tasks are served.
  abbrev pub joined : ℕ → ℕ → List (Task × ℕ) → List (ChannelInput A)
  joined cache depth [] = []
  joined cache depth ((task, session) ∷ tasks) =
      if is_for cache depth task
      then add_destination session ∷ joined cache depth tasks
      else joined cache depth tasks

  -- What it is told when the client leaves, by the cleanup that is set then.
  abbrev pub parted : ℕ → ℕ → Option (Task × ℕ) → List (ChannelInput A)
  parted cache depth none = []
  parted cache depth (some (task, session)) =
      if is_for cache depth task then remove_destination session ∷ [] else []

  abbrev pub has_queue : Option (List (ChannelInput A)) → Bool
  has_queue none = false
  has_queue (some q) = true

module _ {S A : Type 0} where
  -- The channels of the tasks are open, and their loops and those of their caches answer.
  abbrev pub all_open : Serving S A → List (Task × ℕ) → Bool
  all_open s [] = true
  all_open s ((task, session) ∷ tasks) =
      has_queue (queue s task.cache task.depth)
      && s.pipeline_answers task.cache
      && s.channel_answers task.cache task.depth
      && all_open s tasks

  record ServedAll (s : Serving S A) (tasks : List (Task × ℕ)) (s' : Serving S A) : Type 0 where
    grows :
        (cache depth : ℕ)
        → queue s' cache depth ≡ with_inputs (queue s cache depth) (joined cache depth tasks)
    cleanup : s'.cleanup ≡ last s.cleanup tasks
    is_open : s'.is_closed ≡ s.is_closed
    answering : s'.channel_answers ≡ s.channel_answers

  -- What is left of the channels when the client has gone.
  pub record Left (s : Serving S A) (tasks : List (Task × ℕ)) (s' : Serving S A) : Type 0 where
    pub queues :
        (cache depth : ℕ)
        → queue s' cache depth
          ≡ with_inputs
              (queue s cache depth)
              (joined cache depth tasks ++ parted cache depth (last none tasks))
