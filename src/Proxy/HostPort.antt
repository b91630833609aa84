-- ===== src/Proxy/HostPort.antt =====
-- internal/nexodus/proxyrule.go: what `net.JoinHostPort` writes, `net.SplitHostPort` reads.
use Prim.Native.String.{◌++◌ as add}
use text.Mathlib.TextLemmas.{append-nil}
use nexodus.Prelude.{ℕ, ◌≡◌, refl, String, false, some, [], ◌∷◌, arith, Bool-cases, inl, inr, eqb}
use nexodus.Prelude.Text.{concat}
use nexodus.Prelude.Pieces.{contains_char, split_at_char, join, split-join}
use nexodus.Prelude.Cut.{cut, cut_first, contains-append, one_char, two_chars, split_nothing}
use nexodus.Proxy.{join_host_port, split_host_port, bracketed}

-- The two forms of a joined pair.
pub bracket_form :
    (host port : String)
    → concat ("[" ∷ host ∷ "]:" ∷ port ∷ [])
      ≡ String.◌∷◌ "[" (add host (String.◌∷◌ "]" (String.◌∷◌ ":" port)))
unfolding concat
bracket_form host port =
    rw (append-nil port, one_char "[" (add host (add "]:" port)), two_chars "]" ":" port) refl

pub plain_form :
    (host port : String) → concat (host ∷ ":" ∷ port ∷ []) ≡ join ":" (host ∷ port ∷ [])
unfolding concat join
plain_form host port = rw (append-nil port, one_char ":" port) refl

free_of :
    (k : ℕ) (host port : String)
    → contains_char k host ≡ false
    → contains_char k port ≡ false
    → eqb b':' k ≡ false
    → contains_char k (join ":" (host ∷ port ∷ [])) ≡ false
unfolding join contains_char
free_of k host port a b e =
    rw (contains-append k host (String.◌∷◌ ":" port)) (ground (arith, a, b, e))

split_bracketed : (s : String) → split_host_port (String.◌∷◌ "[" s) ≡ bracketed (cut b']' s)
unfolding split_host_port
split_bracketed s = refl

split_plain :
    (s host port : String)
    → contains_char b'[' s ≡ false
    → contains_char b']' s ≡ false
    → split_at_char b':' s ≡ host ∷ port ∷ []
    → split_host_port s ≡ some (host, port)
unfolding split_host_port contains_char
split_plain String.[] host port a b e = absurd (ground (arith, split_nothing b':'))
split_plain (String.◌∷◌ c s) host port a b e = ground arith

pub split-join_host_port :
    (host port : String)
    → contains_char b'[' host ≡ false
    → contains_char b']' host ≡ false
    → contains_char b':' port ≡ false
    → contains_char b'[' port ≡ false
    → contains_char b']' port ≡ false
    → split_host_port (join_host_port host port) ≡ some (host, port)
unfolding join_host_port
split-join_host_port host port a b c d e = elim (Bool-cases (contains_char b':' host)) [
  | inl h ↦
      rw
        (
          h,
          bracket_form host port,
          split_bracketed (add host (String.◌∷◌ "]" (String.◌∷◌ ":" port))),
          cut_first "]" host (String.◌∷◌ ":" port) b,
        )
        (ground arith)
  | inr h ↦
      rw (h, plain_form host port)
        (split_plain (join ":" (host ∷ port ∷ [])) host port (free_of b'[' host port a d refl)
          (free_of b']' host port b e refl) (split-join ":" host (port ∷ []) h (c, tt)))
]
