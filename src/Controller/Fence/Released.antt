-- ===== src/Controller/Fence/Released.antt =====
-- What a Pod is released on.
use garam_agent_operator.Prelude.{◌≡◌, ◌⊎◌, String, true, false, none, some, string_eq, ℕ_eq}
use garam_agent_operator.Controller.Cluster.{Pod, Evidence, Cluster}
use garam_agent_operator.Controller.Fence.{Turn}
use garam_agent_operator.Controller.Fence.Verified.{IsVerified}

-- Where the adapter is built, the Secret has a token that the random source brought, with the Pod and
-- the digest of the evidence as what it replaces; or the patch found no Secret in the cluster before, a
-- Secret was met in the read or the creation after it, and the Secret is left as it is.
pub data IsMinted (turn : Turn) (pod : Pod) (e : Evidence) (k k' : Cluster) : Type 0 where
  no_adapter : turn.adapter_built ≡ false → IsMinted turn pod e k k'
  minted :
      (digest token : String)
      → turn.digest e ≡ some digest
      → (turn.token ≡ some token) ⊎ (turn.created_token ≡ some token)
      → k'.secret ≡ some (record { token = token; previous = some (pod.uid, digest) })
      → IsMinted turn pod e k k'
  met :
      k.secret ≡ none
      → (turn.get_secret_finds ≡ true) ⊎ (turn.create_secret_exists ≡ true)
      → k'.secret ≡ none
      → IsMinted turn pod e k k'

pub record IsReleased (turn : Turn) (pod : Pod) (k k' : Cluster) : Type 0 where
  pub deleting : pod.is_deleting ≡ true
  pub evidence : Evidence
  pub verified : IsVerified turn pod k evidence
  pub stored : k'.evidence ≡ some evidence
  pub next : IsMinted turn pod evidence k k'
