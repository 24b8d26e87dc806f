-- ===== src/Build/Steps.antt =====
-- The last steps of an insertion, and what an insertion does as a whole.
-- What an insertion of node `k` does.
use fraud_detection_api.Base.{
  ◌==◌, if◌then◌else◌, ==_refl, length, All, pos_part, neg_part, pos, ℕ, suc, ◌+◌, ◌%◌, ◌^◌, ◌≤◌,
  ◌<◌, ◌≡◌, refl, ap, ◌∙◌, false, List, arith,
}
use fraud_detection_api.Build.{Links, Builder}
use fraud_detection_api.Build.Linked.{Linked}
use fraud_detection_api.Build.Links.{LinksOk}
use fraud_detection_api.Build.Ready.{Ready, Stored}
use fraud_detection_api.Graph.{Graph, vector_at, is_fraud}
use fraud_detection_api.Run.{ok}
use fraud_detection_api.Vector.{Vector}

pub record Added (k : ℕ) (b : Builder) (v : Vector ℕ) (label : ℕ) (b' : Builder) : Type 0 where
  pub ready : Ready (suc k) b'
  pub n_same : b'.graph.n ≡ b.graph.n
  pub new_vector : vector_at b'.graph k ≡ ok v
  pub new_label : is_fraud b'.graph k ≡ ok (label == 1)
  pub old_vectors : (other : ℕ) → other < k → vector_at b'.graph other ≡ vector_at b.graph other
  pub old_labels : (other : ℕ) → other < k → is_fraud b'.graph other ≡ is_fraud b.graph other

-- A node's vector and label depend on two tables only.
vector_at-vectors :
    (g g' : Graph) (id : ℕ) → g'.vectors ≡ g.vectors → vector_at g' id ≡ vector_at g id
unfolding vector_at
vector_at-vectors g g' id e = rw e refl

is_fraud-labels : (g g' : Graph) (id : ℕ) → g'.labels ≡ g.labels → is_fraud g' id ≡ is_fraud g id
unfolding is_fraud
is_fraud-labels g g' id e = rw e refl

-- From the stored node to the end of the insertion.
pub Added-Stored :
    (k : ℕ) (b c d : Builder) (v : Vector ℕ) (label : ℕ)
    → Stored k b v label c
    → Ready (suc k) d
    → d.graph.n ≡ c.graph.n
    → d.graph.vectors ≡ c.graph.vectors
    → d.graph.labels ≡ c.graph.labels
    → Added k b v label d
Added-Stored k b c d v label s r sizes vectors labels =
    let at = λ (id : ℕ). vector_at-vectors c.graph d.graph id vectors in
    let mark_at = λ (id : ℕ). is_fraud-labels c.graph d.graph id labels in
    record {
      ready = r;
      n_same = sizes ∙ s.n_same;
      new_vector = at k ∙ s.new_vector;
      new_label =
          mark_at k
          ∙ s.labels k (omega arith)
          ∙ ap (λ t. if t then ok (label == 1) else is_fraud b.graph k) (==_refl k);
      old_vectors = λ other l. at other ∙ s.old_vectors other l;
      old_labels = λ other l.
          (let miss : (k == other) ≡ false = ground arith in
            mark_at other
            ∙ s.labels other (omega arith)
            ∙ ap (λ t. if t then ok (label == 1) else is_fraud b.graph other) miss);
    }

-- A new entry point and the layers up to it.
pub promoted :
    (k : ℕ) (b : Builder) (level : ℕ) (layers : List Links)
    → Linked (suc k) b
    → All (LinksOk (suc k)) layers
    → level ≤ length layers
    → level ≤ 31
    → suc k < 2 ^ 32
    → b.inserted ≡ k
    → Ready (suc k) (record b {
      graph = record b.graph { entry_point = k; max_layer = pos level };
      upper_conns = layers;
      inserted = (b.inserted + 1) % 2 ^ 32;
    })
promoted k b level layers o fine enough low small count = record {
  linked = record {
    size_ok = o.size_ok;
    bound = o.bound;
    m_le = o.m_le;
    m0_le = o.m0_le;
    vectors_ok = record { size = o.vectors_ok.size; bytes = o.vectors_ok.bytes };
    counts_size = o.counts_size;
    counts_le = o.counts_le;
    conns_size = o.conns_size;
    conns_ok = o.conns_ok;
    rows_ok = o.rows_ok;
    labels_size = o.labels_size;
    upper_ok = fine;
    visited_size = o.visited_size;
    visited_le = o.visited_le;
    gen_lt = o.gen_lt;
    levels_size = o.levels_size;
  };
  count = omega arith;
  entry_ok = λ h. omega arith;
  top_ok = refl;
  top_le = low;
  layers_enough = enough;
}

-- Only the count differs.
pub counted :
    (k : ℕ) (b : Builder)
    → Linked (suc k) b
    → suc k < 2 ^ 32
    → b.inserted ≡ k
    → b.graph.entry_point < suc k
    → neg_part b.graph.max_layer ≡ 0
    → pos_part b.graph.max_layer ≤ 31
    → pos_part b.graph.max_layer ≤ length b.upper_conns
    → Ready (suc k) (record b { inserted = (b.inserted + 1) % 2 ^ 32 })
counted k b o small count entry sign low enough = record {
  linked = record {
    size_ok = o.size_ok;
    bound = o.bound;
    m_le = o.m_le;
    m0_le = o.m0_le;
    vectors_ok = o.vectors_ok;
    counts_size = o.counts_size;
    counts_le = o.counts_le;
    conns_size = o.conns_size;
    conns_ok = o.conns_ok;
    rows_ok = o.rows_ok;
    labels_size = o.labels_size;
    upper_ok = o.upper_ok;
    visited_size = o.visited_size;
    visited_le = o.visited_le;
    gen_lt = o.gen_lt;
    levels_size = o.levels_size;
  };
  count = omega arith;
  entry_ok = λ h. entry;
  top_ok = sign;
  top_le = low;
  layers_enough = enough;
}
