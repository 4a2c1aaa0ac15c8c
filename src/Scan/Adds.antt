-- ===== src/Scan/Adds.antt =====
-- The pieces of a scanner, seen by the statements that they add.
use dist_lfsck.Cypher.{Stmt}
use dist_lfsck.Prelude.{◌≡◌, refl, sym, ap, ◌∙◌, List, [], ◌∷◌, ◌++◌, append_assoc, append-nil}
use dist_lfsck.Report.{Line, printed, ran, statements, statements-append}
use dist_lfsck.Scan.{Scan, print, run}

-- From `s` to `t` these statements are sent, in order, and the inode's buffer is left alone.
pub record Adds (qs : List Stmt) (s t : Scan) : Type 0 where
  pub sent : statements t.events ≡ statements s.events ++ qs
  pub buffer : t.cur_inode ≡ s.cur_inode

pub Adds-refl : (s : Scan) → Adds [] s s
Adds-refl s = record { sent = sym (append-nil (statements s.events)); buffer = refl }

pub Adds-trans :
    {s t u : Scan} (qs rs : List Stmt) → Adds qs s t → Adds rs t u → Adds (qs ++ rs) s u
Adds-trans {s} qs rs a b = record {
  sent = b.sent ∙ ap (λ l. l ++ rs) a.sent ∙ append_assoc (statements s.events) qs rs;
  buffer = b.buffer ∙ a.buffer;
}

-- What only prints, or only counts, sends nothing.
pub Adds-print : (l : Line) (s : Scan) → Adds [] s (print l s)
Adds-print l s = record { sent = statements-append s.events (printed l ∷ []); buffer = refl }

pub Adds-run : (q : Stmt) (s : Scan) → Adds (q ∷ []) s (run q s)
Adds-run q s = record { sent = statements-append s.events (ran q ∷ []); buffer = refl }

-- A counter may move meanwhile.
pub Adds-count :
    {s t : Scan} (qs : List Stmt) (u : Scan)
    → Adds qs s t
    → u.events ≡ t.events
    → u.cur_inode ≡ t.cur_inode
    → Adds qs s u
Adds-count qs u a e b = record { sent = ap statements e ∙ a.sent; buffer = b ∙ a.buffer }
