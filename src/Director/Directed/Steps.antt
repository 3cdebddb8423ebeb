-- ===== src/Director/Directed/Steps.antt =====
-- Single additions and removals of the director, seen as changes of the set of directed pairs.
use kube_static_egress_ip.Prelude.{
  ◌≡◌, refl, fun_ext, String, true, false, ◌&&◌, ◌==◌, eq_iff, arith, inl, inr,
}
use kube_static_egress_ip.Host.Rules.{Tables}
use kube_static_egress_ip.Director.Rules.{marked, bypassed, unmarked, unbypassed, Adding, Removing}
use kube_static_egress_ip.Director.Directed.{
  directed, IsClean, update, directed-counts, counts, marks-marked, accepts-marked, marks-bypassed,
  accepts-bypassed, marks-unmarked, accepts-unmarked, marks-unbypassed, accepts-unbypassed,
}

-- No edit adds a rule a second time.
marked-IsClean : (s d : String) (x : Tables) → IsClean x → IsClean (marked s d x)
marked-IsClean s d x c = record {
  marks_once = λ s' d'. rw (marks-marked s d s' d' x) (ground (arith, c.marks_once s' d'));
  accepts_once = λ s' d'. rw (accepts-marked s d s' d' x) (c.accepts_once s' d');
}

bypassed-IsClean : (s d : String) (x : Tables) → IsClean x → IsClean (bypassed s d x)
bypassed-IsClean s d x c = record {
  marks_once = λ s' d'. rw (marks-bypassed s d s' d' x) (c.marks_once s' d');
  accepts_once = λ s' d'. rw (accepts-bypassed s d s' d' x) (ground (arith, c.accepts_once s' d'));
}

pub unmarked-IsClean : (s d : String) (x : Tables) → IsClean x → IsClean (unmarked s d x)
unmarked-IsClean s d x c = record {
  marks_once = λ s' d'. rw (marks-unmarked s d s' d' x) (ground (arith, c.marks_once s' d'));
  accepts_once = λ s' d'. rw (accepts-unmarked s d s' d' x) (c.accepts_once s' d');
}

pub unbypassed-IsClean : (s d : String) (x : Tables) → IsClean x → IsClean (unbypassed s d x)
unbypassed-IsClean s d x c = record {
  marks_once = λ s' d'. rw (marks-unbypassed s d s' d' x) (c.marks_once s' d');
  accepts_once =
      λ s' d'. rw (accepts-unbypassed s d s' d' x) (ground (arith, c.accepts_once s' d'));
}

-- What a step for one pair keeps: no rule twice, and all other pairs.
pub record Local (s d : String) (x y : Tables) : Type 0 where
  pub clean : IsClean y
  pub others : (s' d' : String) → (s' == s && d' == d) ≡ false → directed y s' d' ≡ directed x s' d'

pub Adding-Local : (s d : String) (x v : Tables) → IsClean x → Adding s d x v → Local s d x v
Adding-Local s d x v c (inl e) = rw e (record { clean = c; others = λ s' d' ne. refl })
Adding-Local s d x v c (inr (inl e)) = rw e (record {
  clean = marked-IsClean s d x c;
  others = λ s' d' ne. simp (directed-counts, counts, ne);
})
Adding-Local s d x v c (inr (inr (inl e))) = rw e (record {
  clean = bypassed-IsClean s d (marked s d x) (marked-IsClean s d x c);
  others = λ s' d' ne. simp (directed-counts, counts, ne);
})
Adding-Local s d x v c (inr (inr (inr never))) = elim never [ ]

pub Removing-Local : (s d : String) (x v : Tables) → IsClean x → Removing s d x v → Local s d x v
Removing-Local s d x v c (inl e) = rw e (record { clean = c; others = λ s' d' ne. refl })
Removing-Local s d x v c (inr (inl e)) = rw e (record {
  clean = unmarked-IsClean s d x c;
  others = λ s' d' ne. simp (directed-counts, counts, ne);
})
Removing-Local s d x v c (inr (inr (inl e))) = rw e (record {
  clean = unbypassed-IsClean s d (unmarked s d x) (unmarked-IsClean s d x c);
  others = λ s' d' ne. simp (directed-counts, counts, ne);
})
Removing-Local s d x v c (inr (inr (inr never))) = elim never [ ]

-- The two edits of an addition put the pair in, and those of a removal take it out.
pub directed-added :
    (s d : String) (x : Tables)
    → directed (bypassed s d (marked s d x)) ≡ update (directed x) s d true
directed-added s d x = fun_ext λ s'. fun_ext λ d'.
    rw
      (
        directed-counts (bypassed s d (marked s d x)) s' d',
        directed-counts x s' d',
        marks-bypassed s d s' d' (marked s d x),
        accepts-bypassed s d s' d' (marked s d x),
        marks-marked s d s' d' x,
        accepts-marked s d s' d' x,
      )
      (ground (arith, eq_iff s s', eq_iff s' s, eq_iff d d', eq_iff d' d))

pub directed-removed :
    (s d : String) (x : Tables)
    → IsClean x
    → directed (unbypassed s d (unmarked s d x)) ≡ update (directed x) s d false
directed-removed s d x c = fun_ext λ s'. fun_ext λ d'.
    rw
      (
        directed-counts (unbypassed s d (unmarked s d x)) s' d',
        directed-counts x s' d',
        marks-unbypassed s d s' d' (unmarked s d x),
        accepts-unbypassed s d s' d' (unmarked s d x),
        marks-unmarked s d s' d' x,
        accepts-unmarked s d s' d' x,
      )
      (ground (
        arith,
        eq_iff s s',
        eq_iff s' s,
        eq_iff d d',
        eq_iff d' d,
        c.marks_once s' d',
        c.accepts_once s' d',
      ))

-- No addition takes a pair out.
pub Adding-kept :
    (s d : String) (x v : Tables) (s' d' : String)
    → Adding s d x v
    → directed x s' d' ≡ true
    → directed v s' d' ≡ true
Adding-kept s d x v s' d' (inl e) t = rw e t
Adding-kept s d x v s' d' (inr (inl e)) t =
    rw e (simp (directed-counts, counts) (ground (arith, directed-counts x s' d')))
Adding-kept s d x v s' d' (inr (inr (inl e))) t =
    rw e (simp (directed-counts, counts) (ground (arith, directed-counts x s' d')))
Adding-kept s d x v s' d' (inr (inr (inr never))) t = elim never [ ]
