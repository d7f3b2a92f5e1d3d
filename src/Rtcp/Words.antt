-- ===== src/Rtcp/Words.antt =====
-- kmsrtcp.c: the SSRC words of a REMB message, written in network order and read back.
use mathlib.Core.List.{append_assoc}
use kms_core.Prelude.{
  ℕ, zero, suc, ◌+◌, ◌*◌, ◌/◌, ◌%◌, ◌^◌, ◌<◌, ◌≡◌, refl, sym, ap, ◌∙◌, some, List, [], ◌∷◌, ◌++◌,
  arith, length, length-append, ◌>>=◌,
}
use kms_core.Prelude.Buffers.{get_elem?-append, store-append, store_all-append, append_snoc}
use kms_core.Rtcp.{read32, read_ssrcs, htonl, write_ssrcs}

-- The bytes of a list of words.
pub bytes_of : List ℕ → List ℕ
bytes_of [] = []
bytes_of (w ∷ ws) = htonl w ++ bytes_of ws

abbrev pub AllWords : List ℕ → Type 0
AllWords [] = record {}
AllWords (w ∷ ws) = (w < 2 ^ 32) × AllWords ws

pub length-bytes_of : (ws : List ℕ) → length (bytes_of ws) ≡ 4 * length ws
unfolding bytes_of htonl
length-bytes_of [] = refl
length-bytes_of (w ∷ ws) = omega (arith, length-bytes_of ws)

word_value :
    (w : ℕ)
    → w < 2 ^ 32
    → ((w / 2 ^ 24 % 256 * 256 + w / 2 ^ 16 % 256) * 256 + w / 2 ^ 8 % 256) * 256 + w % 256 ≡ w
word_value w h = omega arith

pub read32-htonl :
    (pre : List ℕ) (w : ℕ) (post : List ℕ) (p : ℕ)
    → p ≡ length pre
    → w < 2 ^ 32
    → read32 (pre ++ (htonl w ++ post)) p ≡ some w
unfolding read32 htonl
read32-htonl pre w post p h lt =
    rw (get_elem?-append pre (htonl w ++ post) p 0 (omega arith), ◌>>=◌)
      (rw (get_elem?-append pre (htonl w ++ post) (p + 1) 1 (omega arith), ◌>>=◌)
        (rw (get_elem?-append pre (htonl w ++ post) (p + 2) 2 (omega arith), ◌>>=◌)
          (rw (get_elem?-append pre (htonl w ++ post) (p + 3) 3 (omega arith), ◌>>=◌)
            (ap some (word_value w lt)))))

regroup : (a b c d : List ℕ) → (a ++ b) ++ (c ++ d) ≡ a ++ ((b ++ c) ++ d)
regroup a b c d = append_assoc a b (c ++ d) ∙ ap (◌++◌ a) (sym (append_assoc b c d))

-- The words that were written into a buffer of the right size are its bytes.
pub write_ssrcs-append :
    (done ws rest pre old post : List ℕ) (left i pos : ℕ)
    → left ≡ length ws
    → i ≡ length done
    → pos ≡ length pre
    → length old ≡ 4 * left
    → write_ssrcs left i (done ++ (ws ++ rest)) pos (pre ++ (old ++ post))
      ≡ some (pre ++ (bytes_of ws ++ post))
unfolding write_ssrcs bytes_of
write_ssrcs-append done [] rest pre [] post zero i pos hl hi hp ho = refl
write_ssrcs-append done [] rest pre (o ∷ old) post zero i pos hl hi hp ho = absurd (omega arith)
write_ssrcs-append done (w ∷ ws) rest pre old post zero i pos hl hi hp ho = absurd (omega arith)
write_ssrcs-append done [] rest pre old post (suc left) i pos hl hi hp ho = absurd (omega arith)
write_ssrcs-append done (w ∷ ws) rest pre (a ∷ b ∷ c ∷ d ∷ old) post (suc left) i pos hl hi hp ho =
    rw (get_elem?-append done (w ∷ (ws ++ rest)) i 0 (omega arith), ◌>>=◌)
      (rw
        (
          store_all-append pre (a ∷ b ∷ c ∷ d ∷ []) (old ++ post) (htonl w) pos hp
              (unfold htonl in refl),
          ◌>>=◌,
        )
        (rw (← append_snoc done w (ws ++ rest), ← append_assoc pre (htonl w) (old ++ post))
          (write_ssrcs-append (done ++ (w ∷ [])) ws rest (pre ++ htonl w) old post left (suc i)
              (pos + 4) (omega arith) (omega (arith, length-append done (w ∷ [])))
              (unfold htonl in omega (arith, length-append pre (htonl w))) (omega arith)
            ∙ ap some (regroup pre (htonl w) (bytes_of ws) post))))
write_ssrcs-append done (w ∷ ws) rest pre (a ∷ b ∷ c ∷ []) post (suc left) i pos hl hi hp ho =
    absurd (omega arith)
write_ssrcs-append done (w ∷ ws) rest pre (a ∷ b ∷ []) post (suc left) i pos hl hi hp ho =
    absurd (omega arith)
write_ssrcs-append done (w ∷ ws) rest pre (a ∷ []) post (suc left) i pos hl hi hp ho =
    absurd (omega arith)
write_ssrcs-append done (w ∷ ws) rest pre [] post (suc left) i pos hl hi hp ho =
    absurd (omega arith)

-- Reading them back fills the entries of the array from `i` on.
pub read_ssrcs-append :
    (done old rest pre ws post : List ℕ) (left i pos : ℕ)
    → left ≡ length ws
    → i ≡ length done
    → pos ≡ length pre
    → length old ≡ left
    → AllWords ws
    → read_ssrcs left (pre ++ (bytes_of ws ++ post)) pos i (done ++ (old ++ rest))
      ≡ some (done ++ (ws ++ rest))
unfolding read_ssrcs bytes_of
read_ssrcs-append done [] rest pre [] post zero i pos hl hi hp ho hw = refl
read_ssrcs-append done (o ∷ old) rest pre ws post zero i pos hl hi hp ho hw = absurd (omega arith)
read_ssrcs-append done [] rest pre (w ∷ ws) post zero i pos hl hi hp ho hw = absurd (omega arith)
read_ssrcs-append done [] rest pre ws post (suc left) i pos hl hi hp ho hw = absurd (omega arith)
read_ssrcs-append done (o ∷ old) rest pre [] post (suc left) i pos hl hi hp ho hw =
    absurd (omega arith)
read_ssrcs-append done (o ∷ old) rest pre (w ∷ ws) post (suc left) i pos hl hi hp ho hw =
    rw append_assoc (
      rw (read32-htonl pre w (bytes_of ws ++ post) pos hp hw.0, ◌>>=◌)
        (rw (store-append done o (old ++ rest) i w hi, ◌>>=◌)
          (rw
            (← append_snoc done w (old ++ rest), ← append_assoc pre (htonl w) (bytes_of ws ++ post))
            (read_ssrcs-append (done ++ (w ∷ [])) old rest (pre ++ htonl w) ws post left (suc i)
                (pos + 4) (omega arith) (omega (arith, length-append done (w ∷ [])))
                (unfold htonl in omega (arith, length-append pre (htonl w))) (omega arith) hw.1
              ∙ ap some (append_snoc done w (ws ++ rest))))))
