-- ===== src/Trust/Tests.antt =====
-- A new chain, and its first rotation.
use quosh.Base.Int.{◌+ℤ◌, ◌≤ℤ◌, ℤ, pos}
use quosh.Base.{ℕ, ◌+◌, ◌*◌, ◌≡◌, refl, true, some, List, [], ◌∷◌, arith, get_elem?}
use quosh.Trust.{
  epoch_at, window, prune, load_or_generate_cert, entry, forward_hashes, CertChain, Signer,
}
use quosh.Trust.Windows.{current_window}
use quosh.Trust.Pinned.{entry-forward_hashes}

-- Certificates of one byte, their epoch.
abbrev signer : ℤ → Signer
signer now = record {
  sha256 = λ b. b;
  self_signed = λ k from to. some (k ∷ []);
  written = λ k. true;
  now = now;
}

abbrev new_chain : CertChain
new_chain = record { anchor = pos 1000000; len = 3; entries = []; files = [] }

test_forward :
    (forward_hashes (signer (pos 1000000)) new_chain).1 ≡ some ((0 ∷ []) ∷ (1 ∷ []) ∷ (2 ∷ []) ∷ [])
unfolding forward_hashes entry load_or_generate_cert epoch_at prune
test_forward = refl

test_epoch : epoch_at new_chain (pos (1000000 + 13 * 86400)) ≡ 1
unfolding epoch_at
test_epoch = refl

current_window_example :
    ((window new_chain (epoch_at new_chain (pos 2000000))).0 ≤ℤ pos 2000000)
    × ((pos 2000000 +ℤ pos (23 * 3600)) ≤ℤ (window new_chain (epoch_at new_chain (pos 2000000))).1)
current_window_example = current_window new_chain (pos 2000000) (omega arith)

entry-forward_hashes_example :
    (h : List ℕ) × (get_elem? ((0 ∷ []) ∷ (1 ∷ []) ∷ (2 ∷ []) ∷ []) 1 ≡ some h)
    × (entry
          (signer (pos 3000000))
          (forward_hashes (signer (pos 1000000)) new_chain).0
          (epoch_at new_chain (pos 1000000) + 1)
        ≡ ((forward_hashes (signer (pos 1000000)) new_chain).0, some h))
entry-forward_hashes_example =
    entry-forward_hashes (signer (pos 1000000)) new_chain ((0 ∷ []) ∷ (1 ∷ []) ∷ (2 ∷ []) ∷ []) 1
      (signer (pos 3000000)) test_forward (omega arith)
