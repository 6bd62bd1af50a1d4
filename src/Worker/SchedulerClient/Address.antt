-- ===== src/Worker/SchedulerClient/Address.antt =====
-- Addresses of the scheduler.
use rdma_ai_platform.Common.{
  ap, ◌∙◌, All-append, ◌≡◌, refl, ◌≢◌, none, some, [], ◌∷◌, ◌++◌, arith, ℕ,
}
use rdma_ai_platform.Text.{Text, codes, Lacks, split_at-Lacks, strip_prefix-append}
use rdma_ai_platform.Worker.SchedulerClient.{
  split_last, strip_scheme, strip_path, split_authority, split_host_port,
}

split_last-none : (c : ℕ) (s : Text) → Lacks c s → split_last c s ≡ none
unfolding split_last
split_last-none c [] h = refl
split_last-none c (x ∷ s) h = ground (arith, split_last-none c s h.1)

split_last-Lacks : (c : ℕ) (a b : Text) → Lacks c b → split_last c (a ++ c ∷ b) ≡ some (a, b)
unfolding split_last
split_last-Lacks c [] b h = ground (arith, split_last-none c b h)
split_last-Lacks c (x ∷ a) b h = ground (arith, split_last-Lacks c a b h)

split_authority_lem :
    (host port : Text)
    → host ≢ []
    → port ≢ []
    → Lacks b':' port
    → split_authority (host ++ b':' ∷ port) ≡ some (host, port)
unfolding split_authority
split_authority_lem host port h p l = ground (arith, split_last-Lacks b':' host port l)

strip_scheme_lem : (rest : Text) → strip_scheme (codes "http://" ++ rest) ≡ rest
unfolding strip_scheme
strip_scheme_lem rest = rw (strip_prefix-append (codes "http://") rest, strip_scheme) refl

strip_path_lem : (a path : Text) → Lacks b'/' a → strip_path (a ++ b'/' ∷ path) ≡ a
unfolding strip_path
strip_path_lem a path h = rw (split_at-Lacks b'/' a path h, strip_path) refl

-- A URL `http://host:port/path` is taken apart into host and port, whatever the path is; the host
-- may hold colons.
pub split_host_port_url :
    (host port path : Text)
    → host ≢ []
    → port ≢ []
    → Lacks b'/' host
    → Lacks b'/' port
    → Lacks b':' port
    → split_host_port (codes "http://" ++ ((host ++ b':' ∷ port) ++ b'/' ∷ path))
      ≡ some (host, port)
unfolding split_host_port
split_host_port_url host port path h p hs ps pc =
    let authority = host ++ b':' ∷ port in
    let plain =
      All-append (λ x. x ≢ b'/') host (b':' ∷ port) hs ((λ e. absurd (omega arith)), ps) in
    ap (λ a. split_authority (strip_path a)) (strip_scheme_lem (authority ++ b'/' ∷ path))
    ∙ ap split_authority (strip_path_lem authority path plain)
    ∙ split_authority_lem host port h p pc
