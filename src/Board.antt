-- ===== src/Board.antt =====
-- core/repository/board.py: the Kanban board of a repository, from which tasks are taken and whose
-- cards follow the runs. The file is its loaded document; `now` is the clock.
pub mod Cards
pub mod Document
pub mod Lanes
pub mod Moves
pub mod Traces
pub mod LaneMap
