-- ===== src/Ingestion.antt =====
-- src/ingestion_service.cpp: the body of the class IngestionService.
pub mod Json
pub mod Legacy
pub mod Service
pub mod Program
