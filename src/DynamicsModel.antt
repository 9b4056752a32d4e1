-- ===== src/DynamicsModel.antt =====
-- backend/src/dynamics_model.cpp: the launch, the flight of the arrow and the record of a shot. Each
-- function has the crossbow of the model as its first argument where it reads it.
pub mod Forces
pub mod Launch
pub mod Flight
pub mod Results
mod Tests
